-- ===== src/Datapath/Counting.antt =====
-- The counters of projects/network-verification-lab/src/datapath.cpp add up, and its sessions are bounded.
use embedded_systems_runtime.Prelude.{
  ℕ, suc, ◌+◌, ◌*◌, ◌^◌, ◌≤◌, ◌<◌, ◌≡◌, refl, subst, inl, inr, Option, none, some, ◌&&◌, ◌||◌, List,
  [], ◌∷◌, ◌==◌, ltb, leb, if◌then◌else◌, if_both, Bool-cases, length, bytes_at, arith,
}
use embedded_systems_runtime.Protocol.Endian.{at, get_u32_be}
use embedded_systems_runtime.Datapath.Datagram.{
  magic_word, datagram_header, max_sessions, data_kind, stats_request, reset_request, kind_code,
  Header, check_of, header_at,
}
use embedded_systems_runtime.Datapath.{
  Counters, Datapath, new_datapath, up, find_session, store_session, Fault, bad_length, bad_header,
  bad_crc, replayed, no_session, bad_type, raise_fault, refuse, fault_of, delta, is_none, accept,
  on_data, is_plain, by_kind, checked_datagram, process,
}

-- The sum of the counters of faults.
abbrev pub faults : Counters → ℕ
faults c =
    c.crc_errors + c.length_errors + c.replay_errors + c.header_errors + c.type_errors
    + c.session_errors

pub record IsCounted (n : ℕ) (dp : Datapath) : Type 0 where
  pub by_fault : dp.counts.invalid ≡ faults dp.counts
  pub within : dp.counts.accepted + dp.counts.invalid ≤ dp.counts.datagrams
  pub volume : dp.counts.bytes_accepted ≤ 1400 * dp.counts.accepted
  pub sessions : length dp.last_seq ≤ 64
  pub few : dp.counts.datagrams ≤ n

-- While a datagram that is counted is not yet accepted or refused.
record Pending (n : ℕ) (dp : Datapath) : Type 0 where
  by_fault : dp.counts.invalid ≡ faults dp.counts
  within : dp.counts.accepted + dp.counts.invalid < dp.counts.datagrams
  volume : dp.counts.bytes_accepted ≤ 1400 * dp.counts.accepted
  sessions : length dp.last_seq ≤ 64
  few : dp.counts.datagrams ≤ n
  small : n < 2 ^ 53

settled : (n : ℕ) (dp : Datapath) → Pending n dp → IsCounted n dp
settled n dp p = record {
  few = p.few;
  by_fault = p.by_fault;
  within = omega (arith, p.within);
  volume = p.volume;
  sessions = p.sessions;
}

pub new_datapath-IsCounted : (n : ℕ) → IsCounted n new_datapath
new_datapath-IsCounted n = record {
  few = omega arith;
  by_fault = omega arith;
  within = omega arith;
  volume = omega arith;
  sessions = omega arith;
}

refuse-IsCounted :
    (n : ℕ) (dp : Datapath) (fault : Fault) → Pending n dp → IsCounted n (refuse dp fault).1
unfolding refuse raise_fault
refuse-IsCounted n dp bad_length p = ground arith
refuse-IsCounted n dp bad_header p = ground arith
refuse-IsCounted n dp bad_crc p = ground arith
refuse-IsCounted n dp replayed p = ground arith
refuse-IsCounted n dp no_session p = ground arith
refuse-IsCounted n dp bad_type p = ground arith

-- A new session makes the table longer by one, and a known one leaves its length.
length-store_session :
    (session sequence : ℕ) (entries : List (ℕ × ℕ))
    → length (store_session session sequence entries)
      ≡ (if is_none (find_session session entries) then suc (length entries) else length entries)
unfolding store_session find_session is_none
length-store_session session sequence [] = refl
length-store_session session sequence ((s, q) ∷ entries) =
    ground (arith, length-store_session session sequence entries)

-- What the tests have established of a datagram without a fault.
pub record Checked (bytes : List ℕ) (h : Header) : Type 0 where
  pub starts : get_u32_be bytes 0 ≡ magic_word
  pub version_one : at bytes 4 ≡ 1
  pub no_flags : h.flags ≡ 0
  pub no_reserved : h.reserved ≡ 0
  pub short : h.payload_length ≤ 1400
  pub total : length bytes ≡ 24 + h.payload_length
  pub sum :
      check_of (bytes_at bytes 0 20) (bytes_at bytes 24 h.payload_length) ≡ get_u32_be bytes 20

pub fault_of-Checked : (bytes : List ℕ) (h : Header) → fault_of bytes h ≡ none → Checked bytes h
unfolding fault_of
fault_of-Checked bytes h e = ground arith

accept-IsCounted :
    (n : ℕ) (dp : Datapath) (h : Header) (bytes : List ℕ)
    → Pending n dp
    → h.payload_length ≤ 1400
    → length (store_session h.session h.sequence dp.last_seq) ≤ 64
    → IsCounted n (accept dp h bytes).1
unfolding accept
accept-IsCounted n dp h bytes p l room = ground arith

on_data-IsCounted :
    (n : ℕ) (dp : Datapath) (h : Header) (bytes : List ℕ)
    → Pending n dp
    → h.payload_length ≤ 1400
    → IsCounted n (on_data dp h bytes).1
unfolding on_data
on_data-IsCounted n dp h bytes p l =
    elim (Bool-cases
      (is_none (find_session h.session dp.last_seq) && length dp.last_seq == max_sessions)) [
        | inl e ↦ rw e (refuse-IsCounted n dp no_session p)
        | inr e ↦ rw e (
            if_both (λ (r : List ℕ × Datapath). IsCounted n r.1)
              (delta (find_session h.session dp.last_seq) h.sequence == 0
                || leb (2 ^ 31) (delta (find_session h.session dp.last_seq) h.sequence))
              (refuse dp replayed) (accept dp h bytes) (refuse-IsCounted n dp replayed p)
              (accept-IsCounted n dp h bytes p l (
                ground
                  (arith, p.sessions, e, length-store_session h.session h.sequence dp.last_seq))))
      ]

plus_zero : (n : ℕ) → n ≡ n + 0
plus_zero n = omega arith

module _ (decimal : ℕ → List ℕ) where
  by_kind-IsCounted :
      (n : ℕ) (dp : Datapath) (h : Header) (bytes : List ℕ)
      → Pending n dp
      → h.payload_length ≤ 1400
      → IsCounted n (by_kind decimal dp h bytes).1
  unfolding by_kind
  by_kind-IsCounted n dp h bytes p l =
      if_both (λ (r : List ℕ × Datapath). IsCounted n r.1) (h.kind == kind_code data_kind) _ _
        (on_data-IsCounted n dp h bytes p l)
        (if_both (λ (r : List ℕ × Datapath). IsCounted n r.1)
          (h.kind == kind_code stats_request && is_plain decimal h) _ _ (settled n dp p)
          (if_both (λ (r : List ℕ × Datapath). IsCounted n r.1)
            (h.kind == kind_code reset_request && is_plain decimal h) _ _ (new_datapath-IsCounted n)
            (refuse-IsCounted n dp bad_type p)))

  checked_datagram-IsCounted :
      (n : ℕ) (dp : Datapath) (bytes : List ℕ) (fault : Option Fault)
      → fault_of bytes (header_at bytes) ≡ fault
      → Pending n dp
      → IsCounted n (checked_datagram decimal dp bytes fault).1
  unfolding checked_datagram
  checked_datagram-IsCounted n dp bytes none e p =
      by_kind-IsCounted n dp (header_at bytes) bytes p
        (fault_of-Checked bytes (header_at bytes) e).short
  checked_datagram-IsCounted n dp bytes (some fault) e p = refuse-IsCounted n dp fault p

  process-IsCounted :
      (n : ℕ) (dp : Datapath) (bytes : List ℕ)
      → IsCounted n dp
      → n + 1 < 2 ^ 53
      → IsCounted (n + 1) (process decimal dp bytes).1
  unfolding process
  process-IsCounted n dp bytes c small =
      if_both (λ (r : List ℕ × Datapath). IsCounted (n + 1) r.1)
        (ltb (length bytes) datagram_header) _ _ (refuse-IsCounted (n + 1) _ bad_length pending)
        (checked_datagram-IsCounted (n + 1) _ bytes (fault_of bytes (header_at bytes)) refl pending)
    where
      pending :
          Pending
            (n + 1)
            (record dp { counts = record dp.counts { datagrams = up dp.counts.datagrams } })
      pending = record {
        by_fault = c.by_fault;
        within = omega (arith, c.within, c.few);
        volume = c.volume;
        sessions = c.sessions;
        few = omega (arith, c.few);
        small = small;
      }

  -- A datapath after the datagrams of a list.
  unfoldable pub process_all : Datapath → List (List ℕ) → Datapath
  process_all dp [] = dp
  process_all dp (bytes ∷ rest) = process_all (process decimal dp bytes).1 rest

  -- Whatever datagrams come, if they and the count before stay below 2^53, `invalid` is the sum of the
  -- six counters of faults, no more datagrams are accepted or invalid than came, at most 1400 bytes
  -- were accepted for each, and there are at most 64 sessions, if that was so before.
  pub process_all-IsCounted :
      (n : ℕ) (dp : Datapath) (datagrams : List (List ℕ))
      → IsCounted n dp
      → n + length datagrams < 2 ^ 53
      → IsCounted (n + length datagrams) (process_all dp datagrams)
  unfolding process_all
  process_all-IsCounted n dp [] c few = rw (← plus_zero n) c
  process_all-IsCounted n dp (bytes ∷ rest) c few =
      subst (λ (k : ℕ). IsCounted k (process_all (process decimal dp bytes).1 rest)) (omega arith)
        (process_all-IsCounted (n + 1) (process decimal dp bytes).1 rest
          (process-IsCounted n dp bytes c (omega arith)) (omega arith))
