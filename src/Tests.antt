-- ===== src/Tests.antt =====
-- The theorems at concrete flows, sets, networks and frames, and short runs of the definitions.
pub mod Config
pub mod Dot
pub mod Engine
pub mod Http
pub mod Lists
pub mod Connect
pub mod Wire
pub mod Datagrams
pub mod Proxies
pub mod Transparent
pub mod TrojanReceive
pub mod TrojanStream
use commeatus.Prelude.{
  ◌+◌, eqb, false, get_or, ℕ, ◌≤◌, ◌<◌, ◌≡◌, ◌≢◌, ◌↔◌, refl, true, false, none, some, List, [], ◌∷◌,
  ◌++◌, arith, Bytes, bytes, ◌&&◌, ◌==◌, eqb, length, take, All, if◌then◌else◌, ltb,
}
use commeatus.Text
use commeatus.Text.Hostname
use commeatus.Text.{dot, trim, trim_end, is_utf8, split_once, to_ascii_lowercase}
use commeatus.Text.Number.{parse_uint}
use commeatus.Ip.{IpAddr, IsIp}
use commeatus.Ip.Parse.{parse_ip}
use commeatus.Cidr
use commeatus.Cidr.{IpCidr, CidrResult, from_str, prefix_out_of_range}
use commeatus.Cidr.Membership.{from_str-contains, from_str_refuses, leading_bits, same_family}
use commeatus.Flow.{FlowContext, domain, ip, tcp, unknown}
use commeatus.Plan.{
  new_endpoint_id, new_endpoint_id_accepts, AllIdBytes, direct, RejectReason, adaptive, user_hard,
}
use commeatus.DomainSet.{DomainSet}
use commeatus.DomainSet
use commeatus.DomainSet.Matching.{compile-matches, IsQuery, IsListed, query, LabelSuffix}
use commeatus.Policy.{
  Matcher, PolicyRule, PolicyAction, decide, new_engine, decision, domain_matches_suffix, rank,
}
use commeatus.Policy.Suffix.{domain_matches_suffix_iff}
use commeatus.Policy.Precedence.{strongest}
use commeatus.Policy.Authority.{passes, decide-new_engine, decide_outranks}
use commeatus.Io.{unsupported, err, ok}
use commeatus.Target.{Target, slice, IsTarget}
use commeatus.Target
use commeatus.Ip
use commeatus.Socks5.{parse_udp_request, encode_udp_response}
use commeatus.Socks5.RoundTrip.{IsCanonical, parse_udp_request-encode_udp_response}
use commeatus.Socks5.Fragments.{parse_udp_request_fragments}
use commeatus.Dns
use commeatus.Dns.{DnsCache, new_cache, ttl_of}
use commeatus.Dns.Entries.{Distinct}
use commeatus.Dns.Capacity.{CacheStep, looked_up, answered, run, run-within}
use commeatus.Dns.Fresh.{lifetime, get-insert_other}
use commeatus.Dns.Lifetime.Runs.{get-run}
use commeatus.Trojan.{encode_target, encode_udp_frame, parse_udp_frame, ParsedUdpFrame}
use commeatus.Trojan.Frame.{parse_udp_frame-take}
use commeatus.Trojan.RoundTrip.{parse_udp_frame-encode_udp_frame}

-- 10.1.0.0/16, written with host bits, and two addresses.
abbrev corporate : Bytes
corporate = bytes "10.1.2.3/16"

parsed : parse_ip (bytes "10.1.2.3") ≡ some (IpAddr.v4 0x0a010203)
unfolding parse_ip
parsed = refl

counted : parse_uint 255 (bytes "16") ≡ some 16
unfolding parse_uint
counted = refl

cut : split_once b'/' corporate ≡ some (bytes "10.1.2.3", bytes "16")
unfolding split_once
cut = refl

address_fits : IsIp (IpAddr.v4 0x0a01ffff)
address_fits = omega arith

network_of : from_str corporate ≡ CidrResult.ok (IpCidr.v4 0x0a010000 16)
unfolding from_str split_once parse_ip parse_uint Cidr.of_address Cidr.v4_mask
network_of = refl

from_str-contains_example : Cidr.contains (IpCidr.v4 0x0a010000 16) (IpAddr.v4 0x0a01ffff) ≡ (
    same_family (IpAddr.v4 0x0a010203) (IpAddr.v4 0x0a01ffff)
    && leading_bits (IpAddr.v4 0x0a01ffff) 16 == leading_bits (IpAddr.v4 0x0a010203) 16)
from_str-contains_example =
    from_str-contains corporate (bytes "10.1.2.3") (bytes "16") cut parsed counted
      (IpAddr.v4 0x0a01ffff) address_fits network_of

-- A set compiled from one suffix.
abbrev ads : DomainSet
ads = record { exact = []; suffixes = bytes "ads.example" ∷ [] }

ads_compiled : DomainSet.compile [] (bytes ".Ads.Example" ∷ []) ≡ some ads
unfolding DomainSet.compile Hostname.hostname Text.to_ascii_lowercase Text.trim Text.trim_end
    Text.trim_start Text.is_ascii Text.lower Text.split
ads_compiled = refl

compile-matches_example : (DomainSet.matches ads (bytes "x.ads.example.") ≡ true) ↔ (
    IsQuery (query (bytes "x.ads.example."))
    × IsListed [] (bytes ".Ads.Example" ∷ []) (query (bytes "x.ads.example.")))
compile-matches_example =
    compile-matches [] (bytes ".Ads.Example" ∷ []) (bytes "x.ads.example.") ads_compiled

ads_match : DomainSet.matches ads (bytes "x.ads.example.") ≡ true
unfolding DomainSet.matches Text.trim_end Text.is_ascii Text.split_once eqb
ads_match = refl

ads_no_match : DomainSet.matches ads (bytes "xads.example") ≡ false
unfolding DomainSet.matches Text.trim_end Text.is_ascii Text.split_once eqb
ads_no_match = refl

ascii_utf8 : is_utf8 (bytes ".example.COM") ≡ true
unfolding is_utf8
ascii_utf8 = refl

domain_matches_suffix_iff_example :
    (domain_matches_suffix (bytes "Api.Example.com.") (bytes ".example.COM") ≡ true) ↔ (
      (trim dot (bytes ".example.COM") ≢ [])
      × LabelSuffix
          (to_ascii_lowercase (trim dot (bytes ".example.COM")))
          (to_ascii_lowercase (trim_end dot (bytes "Api.Example.com."))))
domain_matches_suffix_iff_example =
    domain_matches_suffix_iff (bytes "Api.Example.com.") (bytes ".example.COM") ascii_utf8

-- A flow to a name, an adaptive rule in front of a hard one, and a default.
abbrev flow : FlowContext
flow = record {
  id = 7;
  source = record { uid = some 10; package_name = none };
  destination = record { host = domain (bytes "example.com"); port = 443 };
  transport = tcp;
  network = record { kind = unknown; interface = none };
}

abbrev rules : List PolicyRule
rules =
    record { id = 1; tier = adaptive; matcher = Matcher.any; action = PolicyAction.route direct }
    ∷ record {
      id = 2;
      tier = user_hard;
      matcher = Matcher.domain_suffix (bytes "com");
      action = PolicyAction.reject RejectReason.policy;
    }
    ∷ []

decide-new_engine_example :
    decide (new_engine rules (PolicyAction.route direct)) flow
    ≡ decision (PolicyAction.route direct) (strongest (passes flow) rules)
decide-new_engine_example = decide-new_engine rules (PolicyAction.route direct) flow

-- A payload of three bytes for port 53 of 1.2.3.4, encoded.
abbrev resolver : Target
resolver = record { host = ip (IpAddr.v4 0x01020304); port = 53 }

abbrev frame : Bytes
frame = 0x01 ∷ 1 ∷ 2 ∷ 3 ∷ 4 ∷ 0 ∷ 53 ∷ 0 ∷ 3 ∷ 13 ∷ 10 ∷ 65 ∷ 66 ∷ 67 ∷ []

resolver-IsTarget : IsTarget resolver
resolver-IsTarget = record { host = omega arith; port_pos = omega arith; port_fits = omega arith }

frame_encoded : encode_udp_frame resolver (bytes "ABC") ≡ ok frame
unfolding encode_udp_frame encode_target Target.address_bytes Ip.octets Text.to_be_bytes
frame_encoded = refl

parse_udp_frame-encode_udp_frame_example :
    (r : ParsedUdpFrame) × (parse_udp_frame (frame ++ bytes "next") ≡ ok (some r))
    × (r.source ≡ resolver)
    × (slice (frame ++ bytes "next") r.payload_start r.payload_end ≡ bytes "ABC")
    × (r.consumed ≡ length frame)
parse_udp_frame-encode_udp_frame_example =
    parse_udp_frame-encode_udp_frame resolver (bytes "ABC") frame (bytes "next") resolver-IsTarget
      frame_encoded

abbrev read_frame : ParsedUdpFrame
read_frame = record { source = resolver; payload_start = 11; payload_end = 14; consumed = 14 }

frame_read : parse_udp_frame frame ≡ ok (some read_frame)
unfolding parse_udp_frame Target.new_target Text.from_be_bytes eqb
frame_read = refl

parse_udp_frame-take_example :
    parse_udp_frame (take 12 frame)
    ≡ (if ltb 12 read_frame.consumed then ok none else ok (some read_frame))
parse_udp_frame-take_example = parse_udp_frame-take frame 12 read_frame (omega arith) frame_read

-- A response from a name, and a fragment.
abbrev origin : Target
origin = record { host = domain (bytes "a.example"); port = 53 }

origin-IsTarget : IsTarget origin
unfolding is_utf8
origin-IsTarget = record { host = refl; port_pos = omega arith; port_fits = omega arith }

origin-IsCanonical : IsCanonical origin.host
unfolding Text.to_ascii_lowercase Text.lower Text.trim_end
origin-IsCanonical = (omega arith, refl)

abbrev response : Bytes
response = 0 ∷ 0 ∷ 0 ∷ 3 ∷ 9 ∷ (bytes "a.example" ++ (0 ∷ 53 ∷ bytes "ok"))

response_encoded : encode_udp_response origin (bytes "ok") ≡ ok response
unfolding encode_udp_response Target.address_bytes Text.to_be_bytes
response_encoded = refl

parse_udp_request-encode_udp_response_example : parse_udp_request response ≡ ok (origin, bytes "ok")
parse_udp_request-encode_udp_response_example =
    parse_udp_request-encode_udp_response origin (bytes "ok") response origin-IsTarget
      origin-IsCanonical response_encoded

abbrev fragment : Bytes
fragment = 0 ∷ 0 ∷ 1 ∷ 1 ∷ 127 ∷ 0 ∷ 0 ∷ 1 ∷ 0 ∷ 53 ∷ []

-- A cache of one place.
abbrev one_place : DnsCache
one_place = record { entries = []; capacity = 1; max_ttl = 60 }

one_place_built : new_cache 1 60 ≡ some one_place
unfolding new_cache
one_place_built = refl

abbrev cache_steps : List CacheStep
cache_steps =
    answered (bytes "a.example") (IpAddr.v4 1 ∷ []) (some 30) 100
    ∷ answered (bytes "b.example") (IpAddr.v4 2 ∷ []) none 110
    ∷ looked_up (bytes "b.example") 200
    ∷ []

run-within_example :
    (length (run cache_steps one_place).entries ≤ 1) × Distinct (run cache_steps one_place).entries
run-within_example = run-within 1 60 one_place cache_steps one_place_built

abbrev quiet_steps : List CacheStep
quiet_steps =
    looked_up (bytes "a.example") 110
    ∷ answered (bytes "b.example") (IpAddr.v4 2 ∷ []) none 115
    ∷ looked_up (bytes "c.example") 120
    ∷ []

abbrev two_built : DnsCache
two_built = record { entries = []; capacity = 2; max_ttl = 60 }

b_apart : eqb (bytes "b.example") (bytes "a.example") ≡ false
unfolding eqb
b_apart = refl

two_built_new : new_cache 2 60 ≡ some two_built
unfolding new_cache
two_built_new = refl

quiet_room :
    length
        (Dns.insert
          (run (looked_up (bytes "a.example") 90 ∷ []) two_built)
          (bytes "a.example")
          (IpAddr.v4 1 ∷ [])
          (some 30)
          100).entries
      + 1
    ≤ 2
unfolding Dns.insert Dns.get Dns.lookup Dns.ttl_of Dns.retain Dns.remove
quiet_room = omega arith

get-run_example :
    (Dns.get
      (run quiet_steps (
        Dns.insert
          (run (looked_up (bytes "a.example") 90 ∷ []) two_built)
          (bytes "a.example")
          (IpAddr.v4 1 ∷ [])
          (some 30)
          100))
      (bytes "a.example")
      129).0
    ≡ (if ltb 129 (100 + lifetime 60 (some 30)) then some (IpAddr.v4 1 ∷ []) else none)
get-run_example =
    get-run 2 60 two_built (looked_up (bytes "a.example") 90 ∷ []) quiet_steps (bytes "a.example")
      (IpAddr.v4 1 ∷ []) (some 30) 100 129 two_built_new (omega arith) quiet_room
      (omega arith, ((b_apart, omega arith), (omega arith, tt)))

-- A cache of two places that holds a name.
abbrev two_places : DnsCache
two_places = record {
  entries =
      record {
        name = bytes "a.example";
        addresses = IpAddr.v4 1 ∷ [];
        inserted = 100;
        expires = 160;
      }
      ∷ [];
  capacity = 2;
  max_ttl = 60;
}

two_places-Distinct : Distinct two_places.entries
unfolding Dns.lookup
two_places-Distinct = (refl, tt)

names_differ : eqb (bytes "b.example") (bytes "a.example") ≡ false
unfolding eqb
names_differ = refl

still_served :
    (Dns.get (Dns.insert two_places (bytes "b.example") [] none 110) (bytes "a.example") 120).0
    ≡ some (IpAddr.v4 1 ∷ [])
unfolding Dns.get Dns.insert Dns.lookup Dns.ttl_of Dns.remove Dns.retain eqb
still_served = refl
