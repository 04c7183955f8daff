-- ===== src/Dns/Edns/Total.antt =====
-- The OPT record on arbitrary packets: the walks return, and the record found lies in the packet.
use dns_relay.Prelude.{
  ℕ, zero, suc, ◌+◌, ◌≤◌, ◌<◌, Option, none, some, arith, length, ltb, Ensures, Ensures-bind,
  Settles, Settles-bind, Settles-attempt, ◌==◌, Bool-cases, inl, inr, Ensures-Returns, ◌&&◌,
  Returns, Returns-value,
}
use dns_relay.Prelude.Slices.{Bytes, at, u16_at, u16_at_lem, at_lem, slice_lem, be16}
use dns_relay.Dns.Name.{skip_name}
use dns_relay.Dns.Name.Total.{skip_name-Within}
use dns_relay.Dns.Records.{Rr, rdata_start, rdata_end, read_rr, skip_rr, skip_questions_unchecked}
use dns_relay.Dns.Records.Total.{RrWithin, read_rr-RrWithin, counts_read}
use dns_relay.Dns.Edns.Options.{parse_options-Returns}
use dns_relay.Dns.Edns.{
  EdnsOpt, skip_records, read_opt, scan_opt, find_opt_record, rebuild_with_new_opt, bump_arcount,
  synthetic_opt, encode_option, ecs_option, parse_options, replace_ecs, set_ecs_ipv4_subnet,
  Ipv4Subnet,
}

-- The record found starts behind the header, and ends in the packet.
pub record OptWithin (buf : Bytes) (from : ℕ) (opt : EdnsOpt) : Type 0 where
  pub starts : from ≤ opt.rr_start
  pub runs : opt.rr_start < opt.rr_end
  pub ends : opt.rr_end ≤ length buf

pub skip_questions_unchecked-le :
    (n : ℕ) (buf : Bytes) (offset : ℕ)
    → Ensures (λ e. offset ≤ e) (skip_questions_unchecked n buf offset)
unfolding skip_questions_unchecked
skip_questions_unchecked-le zero buf offset = omega arith
skip_questions_unchecked-le (suc n) buf offset =
    Ensures-bind (λ e. (offset < e) × (e ≤ length buf + 1)) _ (skip_name buf offset) _
      (skip_name-Within buf offset)
      λ e q h. ground (arith, skip_questions_unchecked-le n buf (e + 4))

skip_rr-lt : (buf : Bytes) (pos : ℕ) → Ensures (λ e. pos < e) (skip_rr buf pos)
unfolding skip_rr
skip_rr-lt buf pos =
    Ensures-bind (RrWithin buf pos) _ (read_rr buf pos) _ (read_rr-RrWithin buf pos)
      λ r q h. omega arith

skip_records-le : (n : ℕ) (buf : Bytes) (pos : ℕ) → Ensures (λ e. pos ≤ e) (skip_records n buf pos)
unfolding skip_records
skip_records-le zero buf pos = omega arith
skip_records-le (suc n) buf pos =
    Ensures-bind (λ e. pos < e) _ (skip_rr buf pos) _ (skip_rr-lt buf pos)
      λ e q h. ground (arith, skip_records-le n buf e)

read_opt-OptWithin :
    (buf : Bytes) (pos from : ℕ) (r : Rr)
    → from ≤ pos
    → RrWithin buf pos r
    → Returns (OptWithin buf from) (read_opt buf pos r)
unfolding read_opt
read_opt-OptWithin buf pos from r h w =
    rw
      (
        u16_at_lem buf (r.name_end + 2) (omega arith),
        at_lem buf (r.name_end + 4) (omega arith),
        at_lem buf (r.name_end + 5) (omega arith),
        u16_at_lem buf (r.name_end + 6) (omega arith),
        slice_lem buf (rdata_start r) (rdata_end r) (omega arith) (omega arith),
      )
      (record { starts = h; runs = omega arith; ends = w.1 })

scan_opt-OptWithin :
    (n : ℕ) (buf : Bytes) (pos from : ℕ)
    → from ≤ pos
    → Ensures (OptWithin buf from) (scan_opt n buf pos)
unfolding scan_opt
scan_opt-OptWithin zero buf pos from h = tt
scan_opt-OptWithin (suc n) buf pos from h =
    Ensures-bind (RrWithin buf pos) _ (read_rr buf pos) _ (read_rr-RrWithin buf pos) λ r q w.
      elim (Bool-cases (r.rtype == 41)) [
        | inl found ↦ rw found (
            Ensures-Returns (OptWithin buf from) (read_opt buf pos r)
              (read_opt-OptWithin buf pos from r h w))
        | inr other ↦ rw other (scan_opt-OptWithin n buf (rdata_end r) from (omega arith))
      ]

-- On every packet `find_opt_record` returns, and an OPT record that it finds lies behind the header
-- and in the packet.
pub find_opt_record-OptWithin : (buf : Bytes) → Ensures (OptWithin buf 12) (find_opt_record buf)
unfolding find_opt_record
find_opt_record-OptWithin buf = elim (Bool-cases (ltb (length buf) 12)) [
  | inl short ↦ rw short tt
  | inr long ↦
      let (q, a, n) = counts_read buf (ground arith) in
      rw (long, q, a, n, u16_at_lem buf 10 (ground arith))
        (Ensures-bind (λ e. 12 ≤ e) _ (skip_questions_unchecked (be16 buf 4) buf 12) _
          (skip_questions_unchecked-le (be16 buf 4) buf 12)
          λ start _ h.
            Ensures-bind (λ e. start ≤ e) _ (skip_records (be16 buf 6 + be16 buf 8) buf start) _
              (skip_records-le _ buf start)
              λ pos _ k. scan_opt-OptWithin (be16 buf 10) buf pos 12 (omega arith))
]

bump_arcount-Settles : (out : Bytes) → Settles (bump_arcount out)
unfolding bump_arcount u16_at at
bump_arcount-Settles out = ground arith

rebuild-Settles :
    (payload : Bytes) (opt : EdnsOpt) (new : Bytes)
    → opt.rr_start ≤ length payload
    → opt.rr_end ≤ length payload
    → Settles (rebuild_with_new_opt payload opt new)
unfolding rebuild_with_new_opt
rebuild-Settles payload opt new h k =
    rw
      (
        slice_lem payload 0 opt.rr_start (omega arith) h,
        slice_lem payload opt.rr_end (length payload) k (omega arith),
      )
      (elim (Bool-cases (opt.rr_start == opt.rr_end && opt.rr_start == length payload)) [
        | inl fresh ↦ rw fresh (bump_arcount-Settles _)
        | inr old ↦ rw old tt
      ])

replace_ecs-Settles : (raw : Bytes) (subnet : Ipv4Subnet) → Settles (replace_ecs raw subnet)
unfolding replace_ecs
replace_ecs-Settles raw subnet =
    let (os, parsed, _) = Returns-value _ (parse_options raw) (parse_options-Returns raw) in
    rw parsed tt

-- On every packet and for every subnet `set_ecs_ipv4_subnet` returns: it slices in bounds.
pub set_ecs_ipv4_subnet-Settles :
    (payload : Bytes) (subnet : Option Ipv4Subnet) → Settles (set_ecs_ipv4_subnet payload subnet)
unfolding set_ecs_ipv4_subnet
set_ecs_ipv4_subnet-Settles payload none = tt
set_ecs_ipv4_subnet-Settles payload (some subnet) =
    Settles-attempt (OptWithin payload 12) (find_opt_record payload) _ _
      (find_opt_record-OptWithin payload)
      (λ opt w.
        Settles-bind (replace_ecs opt.options subnet) _ (replace_ecs-Settles opt.options subnet)
          λ new. rebuild-Settles payload opt new (ground arith) w.ends)
      (rebuild-Settles payload (synthetic_opt payload) (encode_option (ecs_option subnet))
        (omega arith) (omega arith))
