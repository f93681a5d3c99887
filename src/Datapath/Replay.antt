-- ===== src/Datapath/Replay.antt =====
-- projects/network-verification-lab/src/datapath.cpp refuses a datagram that it has acknowledged before.
use embedded_systems_runtime.Prelude.{
  ℕ, suc, ◌+◌, ◌-◌, ◌%◌, ◌^◌, ◌≡◌, ◌≢◌, refl, ap, ◌∙◌, List, [], ◌∷◌, Option, none, some, Bool,
  length, arith, All, ◌==◌, leb, ltb, ◌&&◌, ◌||◌, if_both, Bool-cases, inl, inr, true, false,
}
use embedded_systems_runtime.Datapath.Datagram.{
  Header, header_at, kind_code, datagram_header, max_sessions,
}
use embedded_systems_runtime.Datapath.{
  Datapath, find_session, store_session, Fault, bad_length, replayed, no_session, bad_type,
  raise_fault, refuse, delta, is_none, accept, on_data, fault_of, is_plain, by_kind,
  checked_datagram, process,
}
use embedded_systems_runtime.Datapath.Counting.{process_all}
use embedded_systems_runtime.Datapath.Taken.{counted, Taken, process-Taken}

find_session-store_self :
    (s q : ℕ) (entries : List (ℕ × ℕ)) → find_session s (store_session s q entries) ≡ some q
unfolding find_session store_session
find_session-store_self s q [] = ground arith
find_session-store_self s q ((s', q') ∷ entries) = elim (Bool-cases (s' == s)) [
  | inl e ↦ rw (e, e) refl
  | inr e ↦ rw (e, e) (find_session-store_self s q entries)
]

find_session-store_ne :
    (s s' q : ℕ) (entries : List (ℕ × ℕ))
    → s' ≢ s
    → find_session s (store_session s' q entries) ≡ find_session s entries
unfolding find_session store_session
find_session-store_ne s s' q [] h = ground arith
find_session-store_ne s s' q ((t, r) ∷ entries) h =
    ground (arith, find_session-store_ne s s' q entries h)

-- A datagram that is not of session `s`, and does not ask for a reset.
abbrev pub Elsewhere : ℕ → List ℕ → Type 0
Elsewhere s bytes = ((header_at bytes).session ≢ s) × ((header_at bytes).kind ≢ 5)

module _ (decimal : ℕ → List ℕ) (s : ℕ) where
  -- A result that leaves the number of session `s`.
  abbrev Keeps : Datapath → List ℕ × Datapath → Type 0
  Keeps dp r = find_session s r.1.last_seq ≡ find_session s dp.last_seq

  refuse-Keeps : (dp : Datapath) (fault : Fault) → Keeps dp (refuse dp fault)
  unfolding refuse raise_fault
  refuse-Keeps dp fault = refl

  on_data-Keeps :
      (dp : Datapath) (h : Header) (bytes : List ℕ) → h.session ≢ s → Keeps dp (on_data dp h bytes)
  unfolding on_data accept
  on_data-Keeps dp h bytes ne =
      if_both (Keeps dp)
        (is_none (find_session h.session dp.last_seq) && length dp.last_seq == max_sessions) _ _
        (refuse-Keeps dp no_session)
        (if_both (Keeps dp)
          (delta (find_session h.session dp.last_seq) h.sequence == 0
            || leb (2 ^ 31) (delta (find_session h.session dp.last_seq) h.sequence))
          _ _ (refuse-Keeps dp replayed)
          (find_session-store_ne s h.session h.sequence dp.last_seq ne))

  by_kind-Keeps :
      (dp : Datapath) (h : Header) (bytes : List ℕ)
      → h.session ≢ s
      → h.kind ≢ 5
      → Keeps dp (by_kind decimal dp h bytes)
  unfolding by_kind kind_code
  by_kind-Keeps dp h bytes ne kind =
      if_both (Keeps dp) (h.kind == 1) _ _ (on_data-Keeps dp h bytes ne) (
        if_both (Keeps dp) (h.kind == 3 && is_plain decimal h) _ _ refl (
          rw (not_reset (h.kind == 5) (is_plain decimal h) (ground arith))
            (refuse-Keeps dp bad_type)))
    where
      not_reset : (a b : Bool) → a ≡ false → (a && b) ≡ false
      not_reset a b e = ground arith

  checked_datagram-Keeps :
      (dp : Datapath) (bytes : List ℕ) (fault : Option Fault)
      → Elsewhere s bytes
      → Keeps dp (checked_datagram decimal dp bytes fault)
  unfolding checked_datagram
  checked_datagram-Keeps dp bytes none e = by_kind-Keeps dp (header_at bytes) bytes e.0 e.1
  checked_datagram-Keeps dp bytes (some fault) e = refuse-Keeps dp fault

  process-Keeps :
      (dp : Datapath) (bytes : List ℕ) → Elsewhere s bytes → Keeps dp (process decimal dp bytes)
  unfolding process
  process-Keeps dp bytes e =
      if_both (Keeps dp) (ltb (length bytes) datagram_header) _ _
        (refuse-Keeps (counted dp) bad_length)
        (checked_datagram-Keeps (counted dp) bytes (fault_of bytes (header_at bytes)) e)

  process_all-Keeps :
      (dp : Datapath) (datagrams : List (List ℕ))
      → All (Elsewhere s) datagrams
      → find_session s (process_all decimal dp datagrams).last_seq ≡ find_session s dp.last_seq
  unfolding process_all
  process_all-Keeps dp [] h = refl
  process_all-Keeps dp (bytes ∷ rest) (e, h) =
      process_all-Keeps (process decimal dp bytes).1 rest h ∙ process-Keeps dp bytes e

module _ (decimal : ℕ → List ℕ) where
  refuse_known :
      (dp dp' : Datapath) (bytes : List ℕ)
      → Taken decimal dp bytes
      → find_session (header_at bytes).session dp'.last_seq ≡ some (header_at bytes).sequence
      → process decimal dp' bytes ≡ refuse (counted dp') replayed
  unfolding process checked_datagram by_kind on_data kind_code delta is_none
  refuse_known dp dp' bytes t f = rw (long, t.faultless, is_data, f, same) refl
    where
      long : ltb (length bytes) 24 ≡ false
      long = ground (arith, t.long)

      is_data : ((header_at bytes).kind == 1) ≡ true
      is_data = ground (arith, t.is_data)

      same : ((header_at bytes).sequence + 2 ^ 32 - (header_at bytes).sequence) % 2 ^ 32 ≡ 0
      same = omega arith

  -- A datagram that raised the count of the accepted is refused as replayed when it comes again,
  -- whatever came between that is not of its session and no request for a reset.
  pub process_refuses_replay :
      (dp : Datapath) (bytes : List ℕ) (between : List (List ℕ))
      → (process decimal dp bytes).1.counts.accepted ≡ suc dp.counts.accepted
      → All (Elsewhere (header_at bytes).session) between
      → process decimal (process_all decimal (process decimal dp bytes).1 between) bytes
        ≡ refuse (counted (process_all decimal (process decimal dp bytes).1 between)) replayed
  unfolding accept
  process_refuses_replay dp bytes between h e =
      let t = process-Taken decimal dp bytes h in
      refuse_known dp (process_all decimal (process decimal dp bytes).1 between) bytes t (
        process_all-Keeps decimal (header_at bytes).session (process decimal dp bytes).1 between e
        ∙ ap (λ (r : List ℕ × Datapath). find_session (header_at bytes).session r.1.last_seq)
            t.result
        ∙ find_session-store_self (header_at bytes).session (header_at bytes).sequence dp.last_seq)
