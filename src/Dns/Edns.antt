-- ===== src/Dns/Edns.antt =====
-- EDNS(0): the OPT record and the client-subnet option of shared/src/dns.rs.
pub mod Options
pub mod Total
use dns_relay.Prelude.{
  ℕ, zero, suc, ◌+◌, ◌-◌, ◌*◌, ◌/◌, ◌%◌, ◌≤◌, Bool, true, false, not, ◌&&◌, Option, none, some,
  List, [], ◌∷◌, ◌++◌, ltb, leb, ◌==◌, if◌then◌else◌, length, set, take, drop, Outcome, ok, refuse,
  out_of_fuel, attempt, guard, ◌>>=◌, ◌>>◌,
}
use dns_relay.Prelude.Slices.{Bytes, at, slice, u16_at, to_be16}
use dns_relay.Dns.Name.{skip_name}
use dns_relay.Dns.Records.{Rr, read_rr, rdata_start, rdata_end, skip_rr, skip_questions_unchecked}

pub record EdnsOpt : Type 0 where
  pub rr_start : ℕ
  pub rr_end : ℕ
  pub udp_payload_size : ℕ
  pub extended_rcode : ℕ
  pub version : ℕ
  pub flags : ℕ
  pub options : Bytes

-- The loop over the answer and authority records.
unfoldable pub skip_records : ℕ → Bytes → ℕ → Outcome ℕ
skip_records zero buf pos = ok pos
skip_records (suc n) buf pos = do next ← skip_rr buf pos; skip_records n buf next

-- What `find_opt_record` returns for a record of type 41.
unfoldable pub read_opt : Bytes → ℕ → Rr → Outcome EdnsOpt
read_opt buf rr_start r = do
  class ← u16_at buf (r.name_end + 2)
  extended_rcode ← at buf (r.name_end + 4)
  version ← at buf (r.name_end + 5)
  flags ← u16_at buf (r.name_end + 6)
  options ← slice buf (rdata_start r) (rdata_end r)
  ok (record {
    rr_start = rr_start;
    rr_end = rdata_end r;
    udp_payload_size = class;
    extended_rcode = extended_rcode;
    version = version;
    flags = flags;
    options = options;
  })

-- The loop over the additional records.
unfoldable pub scan_opt : ℕ → Bytes → ℕ → Outcome EdnsOpt
scan_opt zero buf pos = refuse
scan_opt (suc n) buf pos = do
  r ← read_rr buf pos
  let next = scan_opt n buf (rdata_end r)
  if r.rtype == 41 then read_opt buf pos r else next

unfoldable pub find_opt_record : Bytes → Outcome EdnsOpt
unfolding skip_questions_unchecked skip_records skip_rr scan_opt read_opt read_rr skip_name at slice
find_opt_record buf = do
  guard (not (ltb (length buf) 12))
  qdcount ← u16_at buf 4
  ancount ← u16_at buf 6
  nscount ← u16_at buf 8
  arcount ← u16_at buf 10
  start ← skip_questions_unchecked qdcount buf 12
  pos ← skip_records (ancount + nscount) buf start
  scan_opt arcount buf pos

pub record EdnsOption : Type 0 where
  pub option_code : ℕ
  pub payload : Bytes

-- The loop of `parse_options`. Each round moves right by four at least.
unfoldable pub options_from : ℕ → Bytes → ℕ → Outcome (List EdnsOption)
options_from zero options pos = out_of_fuel
options_from (suc fuel) options pos =
    let next = λ (p : ℕ). options_from fuel options p in
    if ltb (length options) (pos + 4) then ok [] else do
      option_code ← u16_at options pos
      len ← u16_at options (pos + 2)
      if ltb (length options) (pos + 4 + len) then ok [] else do
        body ← slice options (pos + 4) (pos + 4 + len)
        rest ← next (pos + (4 + len))
        ok (record { option_code = option_code; payload = body } ∷ rest)

unfoldable pub parse_options : Bytes → Outcome (List EdnsOption)
unfolding options_from at slice
parse_options options = options_from (length options + 1) options 0

abbrev pub opt_code_ecs : ℕ
opt_code_ecs = 8

abbrev pub Ipv4Subnet : Type 0
Ipv4Subnet = ℕ × ℕ × ℕ

-- The body of the client-subnet option: IPv4, 24 bits of source prefix, no scope, three bytes.
abbrev pub ecs_body : Ipv4Subnet → Bytes
ecs_body (a, b, c) = 0x00 ∷ 0x01 ∷ 24 ∷ 0 ∷ a ∷ b ∷ c ∷ []

abbrev pub encode_option : EdnsOption → Bytes
encode_option o = to_be16 o.option_code ++ (to_be16 (length o.payload % 65536) ++ o.payload)

abbrev pub encode_options : List EdnsOption → Bytes
encode_options [] = []
encode_options (o ∷ os) = encode_option o ++ encode_options os

-- `options.retain(|opt| opt.code != OPT_CODE_ECS)`
abbrev pub retain_others : List EdnsOption → List EdnsOption
retain_others [] = []
retain_others (o ∷ os) =
    let rest = retain_others os in if o.option_code == opt_code_ecs then rest else o ∷ rest

-- `arcount + 1` is computed in 16 bits, with the overflow checks off as in the release profile.
unfoldable pub bump_arcount : Bytes → Outcome Bytes
bump_arcount out = do
  guard (not (ltb (length out) 12))
  arcount ← u16_at out 10
  let new_arcount = (arcount + 1) % 65536
  ok (set (set out 10 (new_arcount / 256)) 11 (new_arcount % 256))

abbrev pub opt_header : EdnsOpt → ℕ → Bytes
opt_header existing size =
    0x00
    ∷ (to_be16 41
        ++ (to_be16 existing.udp_payload_size
            ++ (existing.extended_rcode
                ∷ existing.version
                ∷ (to_be16 existing.flags ++ to_be16 (size % 65536)))))

unfoldable pub rebuild_with_new_opt : Bytes → EdnsOpt → Bytes → Outcome Bytes
rebuild_with_new_opt payload existing new_options = do
  before ← slice payload 0 existing.rr_start
  after ← slice payload existing.rr_end (length payload)
  let out = before ++ (opt_header existing (length new_options) ++ (new_options ++ after))
  if existing.rr_start == existing.rr_end && existing.rr_start == length payload
      then bump_arcount out
      else ok out

abbrev pub synthetic_opt : Bytes → EdnsOpt
synthetic_opt payload = record {
  rr_start = length payload;
  rr_end = length payload;
  udp_payload_size = 4096;
  extended_rcode = 0;
  version = 0;
  flags = 0;
  options = [];
}

abbrev pub ecs_option : Ipv4Subnet → EdnsOption
ecs_option subnet = record { option_code = opt_code_ecs; payload = ecs_body subnet }

-- The options that are written back: all others, then the new one.
unfoldable pub replace_ecs : Bytes → Ipv4Subnet → Outcome Bytes
replace_ecs existing_options subnet = do
  options ← parse_options existing_options
  ok (encode_options (retain_others options) ++ encode_option (ecs_option subnet))

unfoldable pub set_ecs_ipv4_subnet : Bytes → Option Ipv4Subnet → Outcome Bytes
unfolding find_opt_record replace_ecs parse_options rebuild_with_new_opt bump_arcount
set_ecs_ipv4_subnet payload none = ok payload
set_ecs_ipv4_subnet payload (some subnet) =
    attempt (find_opt_record payload)
      (λ existing. do
        new_options ← replace_ecs existing.options subnet
        rebuild_with_new_opt payload existing new_options)
      (rebuild_with_new_opt payload (synthetic_opt payload) (encode_option (ecs_option subnet)))
