-- ===== src/Datapath/Taken.antt =====
-- What projects/network-verification-lab/src/datapath.cpp acknowledges: the branches of process.
use embedded_systems_runtime.Prelude.{
  ℕ, suc, ◌^◌, ◌≤◌, ◌<◌, ◌≡◌, refl, ◌⊎◌, inl, inr, Option, none, some, false, ◌&&◌, ◌||◌, List,
  ◌==◌, ltb, leb, if_both, Bool-cases, length, arith, ==_iff,
}
use embedded_systems_runtime.Datapath.Datagram.{
  datagram_header, max_sessions, kind_code, Header, header_at,
}
use embedded_systems_runtime.Datapath.{
  Datapath, up, find_session, Fault, bad_length, bad_header, bad_crc, replayed, no_session,
  bad_type, raise_fault, refuse, fault_of, delta, is_none, accept, on_data, is_plain, by_kind,
  checked_datagram, process,
}
use embedded_systems_runtime.Datapath.Counting.{Checked, fault_of-Checked}

-- The state in which the checks are made.
abbrev pub counted : Datapath → Datapath
counted dp = record dp { counts = record dp.counts { datagrams = up dp.counts.datagrams } }

-- The sequence number is new to the session, which is known or finds room.
pub record IsNew (dp : Datapath) (h : Header) : Type 0 where
  pub room :
      (is_none (find_session h.session dp.last_seq) && length dp.last_seq == max_sessions) ≡ false
  pub forward : 0 < delta (find_session h.session dp.last_seq) h.sequence
  pub near : delta (find_session h.session dp.last_seq) h.sequence < 2 ^ 31

-- A result that leaves the count of the accepted, or starts it again.
abbrev pub NotTaken : Datapath → List ℕ × Datapath → Type 0
NotTaken dp r = (r.1.counts.accepted ≡ dp.counts.accepted) ⊎ (r.1.counts.accepted ≡ 0)

refuse-NotTaken : (dp : Datapath) (fault : Fault) → NotTaken dp (refuse dp fault)
unfolding refuse raise_fault
refuse-NotTaken dp bad_length = inl refl
refuse-NotTaken dp bad_header = inl refl
refuse-NotTaken dp bad_crc = inl refl
refuse-NotTaken dp replayed = inl refl
refuse-NotTaken dp no_session = inl refl
refuse-NotTaken dp bad_type = inl refl

on_data-cases :
    (dp : Datapath) (h : Header) (bytes : List ℕ)
    → NotTaken dp (on_data dp h bytes) ⊎ ((on_data dp h bytes ≡ accept dp h bytes) × IsNew dp h)
unfolding on_data
on_data-cases dp h bytes =
    let last = find_session h.session dp.last_seq in
    elim (Bool-cases (is_none last && length dp.last_seq == max_sessions)) [
      | inl e ↦ rw e (inl (refuse-NotTaken dp no_session))
      | inr e ↦
          elim (Bool-cases (delta last h.sequence == 0 || leb (2 ^ 31) (delta last h.sequence))) [
            | inl f ↦ rw (e, f) (inl (refuse-NotTaken dp replayed))
            | inr f ↦
                rw (e, f)
                  (inr (
                    refl,
                    record { room = e; forward = ground (arith, f); near = ground (arith, f) },
                  ))
          ]
    ]

module _ (decimal : ℕ → List ℕ) where
  by_kind-cases :
      (dp : Datapath) (h : Header) (bytes : List ℕ)
      → NotTaken dp (by_kind decimal dp h bytes)
        ⊎ ((by_kind decimal dp h bytes ≡ accept dp h bytes) × (h.kind ≡ 1) × IsNew dp h)
  unfolding by_kind kind_code
  by_kind-cases dp h bytes = elim (Bool-cases (h.kind == 1)) [
    | inl e ↦ rw e (with_kind (on_data-cases dp h bytes) ((==_iff h.kind 1).0 e))
    | inr e ↦ rw e (
        inl (
          if_both (NotTaken dp) (h.kind == 3 && is_plain decimal h) _ _ (inl refl) (
            if_both (NotTaken dp) (h.kind == 5 && is_plain decimal h) _ _ (inr refl)
              (refuse-NotTaken dp bad_type))))
  ]
    where
      with_kind :
          NotTaken dp (on_data dp h bytes) ⊎ ((on_data dp h bytes ≡ accept dp h bytes) × IsNew dp h)
          → h.kind ≡ 1
          → NotTaken dp (on_data dp h bytes)
            ⊎ ((on_data dp h bytes ≡ accept dp h bytes) × (h.kind ≡ 1) × IsNew dp h)
      with_kind (inl e) k = inl e
      with_kind (inr (e, f)) k = inr (e, k, f)

  -- What an accepted datagram has passed.
  pub record Taken (dp : Datapath) (bytes : List ℕ) : Type 0 where
    pub faultless : fault_of bytes (header_at bytes) ≡ none
    pub checked : Checked bytes (header_at bytes)
    pub long : 24 ≤ length bytes
    pub is_data : (header_at bytes).kind ≡ 1
    pub is_new : IsNew dp (header_at bytes)
    pub result : process decimal dp bytes ≡ accept (counted dp) (header_at bytes) bytes

  checked_datagram-cases :
      (dp : Datapath) (bytes : List ℕ) (fault : Option Fault)
      → fault_of bytes (header_at bytes) ≡ fault
      → NotTaken dp (checked_datagram decimal dp bytes fault)
        ⊎ ((checked_datagram decimal dp bytes fault ≡ accept dp (header_at bytes) bytes)
            × (fault_of bytes (header_at bytes) ≡ none)
            × ((header_at bytes).kind ≡ 1)
            × IsNew dp (header_at bytes))
  unfolding checked_datagram
  checked_datagram-cases dp bytes (some fault) e = inl (refuse-NotTaken dp fault)
  checked_datagram-cases dp bytes none e = with_checks e (by_kind-cases dp (header_at bytes) bytes)
    where
      with_checks :
          fault_of bytes (header_at bytes) ≡ none
          → NotTaken dp (by_kind decimal dp (header_at bytes) bytes)
            ⊎ ((by_kind decimal dp (header_at bytes) bytes ≡ accept dp (header_at bytes) bytes)
                × ((header_at bytes).kind ≡ 1)
                × IsNew dp (header_at bytes))
          → NotTaken dp (by_kind decimal dp (header_at bytes) bytes)
            ⊎ ((by_kind decimal dp (header_at bytes) bytes ≡ accept dp (header_at bytes) bytes)
                × (fault_of bytes (header_at bytes) ≡ none)
                × ((header_at bytes).kind ≡ 1)
                × IsNew dp (header_at bytes))
      with_checks c (inl e) = inl e
      with_checks c (inr (e, k, f)) = inr (e, c, k, f)

  pub process-cases :
      (dp : Datapath) (bytes : List ℕ) → NotTaken dp (process decimal dp bytes) ⊎ Taken dp bytes
  unfolding process
  process-cases dp bytes = elim (Bool-cases (ltb (length bytes) datagram_header)) [
    | inl e ↦ rw e (inl (refuse-NotTaken (counted dp) bad_length))
    | inr e ↦
        taken e (checked_datagram-cases (counted dp) bytes (fault_of bytes (header_at bytes)) refl)
  ]
    where
      taken :
          ltb (length bytes) 24 ≡ false
          → NotTaken
              (counted dp)
              (checked_datagram decimal (counted dp) bytes (fault_of bytes (header_at bytes)))
            ⊎ ((checked_datagram decimal (counted dp) bytes (fault_of bytes (header_at bytes))
                  ≡ accept (counted dp) (header_at bytes) bytes)
                × (fault_of bytes (header_at bytes) ≡ none)
                × ((header_at bytes).kind ≡ 1)
                × IsNew (counted dp) (header_at bytes))
          → NotTaken dp (process decimal dp bytes) ⊎ Taken dp bytes
      taken e (inl n) = inl (rw e n)
      taken e (inr (r, c, k, f)) = inr (record {
        faultless = c;
        checked = fault_of-Checked bytes (header_at bytes) c;
        long = ground (arith, e);
        is_data = k;
        is_new = record { room = f.room; forward = f.forward; near = f.near };
        result = rw e r;
      })

  -- A datagram that raises the count of the accepted is taken.
  pub process-Taken :
      (dp : Datapath) (bytes : List ℕ)
      → (process decimal dp bytes).1.counts.accepted ≡ suc dp.counts.accepted
      → Taken dp bytes
  process-Taken dp bytes h = only_taken (process-cases dp bytes)
    where
      only_taken : NotTaken dp (process decimal dp bytes) ⊎ Taken dp bytes → Taken dp bytes
      only_taken (inl (inl e)) = absurd (omega arith)
      only_taken (inl (inr e)) = absurd (omega arith)
      only_taken (inr t) = t
