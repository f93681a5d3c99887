-- ===== src/Firmware/Image/Copy.antt =====
-- copy_and_crc of firmware/image.c over an input that is read in pieces of any size.
use embedded_systems_runtime.Prelude.{
  ℕ, ◌+◌, ◌%◌, ◌^◌, ◌<◌, ◌≡◌, refl, sym, ap, ap₂, ◌∙◌, Option, none, some, Bool, true, false, inl,
  inr, List, [], ◌∷◌, ◌++◌, ◌==◌, ltb, if◌then◌else◌, Bool-cases, append_assoc, append-nil, length,
  length-append, length-drop, take, drop, take-append-drop, arith,
}
use embedded_systems_runtime.Protocol.Crc.{crc32_begin, crc32_update, crc32_end, crc32}
use embedded_systems_runtime.Protocol.Crc.Streaming.{crc32_update-append}
use embedded_systems_runtime.Protocol.Stream.{ReadEvent, got, WriteEvent, wrote}
use embedded_systems_runtime.Protocol.Stream.Transfer.{stored, Taken}
use embedded_systems_runtime.Firmware.Image.{
  Copied, copied, write_piece, after_piece, copy_loop, copy_and_crc,
}

-- Reads that store something or are interrupted.
abbrev pub Flowing : List ReadEvent → Type 0
Flowing [] = Unit
Flowing (ReadEvent.interrupted ∷ es) = Flowing es
Flowing (ReadEvent.failed ∷ es) = ⊥
Flowing (got bs ∷ es) = (0 < length bs) × Flowing es

update_nothing : (s : ℕ) → crc32_update s [] ≡ s
unfolding crc32_update
update_nothing s = refl

-- What copy_and_crc gives at the end of the input, if the total is `n` and the checksum state `crc`.
abbrev closing : ℕ → ℕ → ℕ → Option ℕ
closing expected n crc = if n == expected then some (crc32_end crc) else none

closing_late : (expected n crc : ℕ) → expected < n → closing expected n crc ≡ none
closing_late expected n crc h = ground arith

closing_at : (expected crc : ℕ) → closing expected expected crc ≡ some (crc32_end crc)
closing_at expected crc = ground arith

module _ (expected : ℕ) where
  copy_loop_end :
      (to_file : Bool) (total crc : ℕ) (file : List ℕ) (rest : List ReadEvent)
      (ws : List WriteEvent)
      → copy_loop to_file expected total crc file (got [] ∷ rest) ws
        ≡ copied (closing expected (total + 0) (crc32_update crc [])) file ws
  unfolding copy_loop
  copy_loop_end to_file total crc file rest ws =
      rw (update_nothing crc) (elim (Bool-cases (total == expected)) [
        | inl e ↦ rw (total_zero, e) refl
        | inr e ↦ rw (total_zero, e) refl
      ])
    where
      total_zero : total + 0 ≡ total
      total_zero = omega arith

  module _ (file : List ℕ) (ws : List WriteEvent) where
    checked_total :
        (total crc : ℕ) (es rest : List ReadEvent)
        → Flowing es
        → total + length (stored es) < 2 ^ 64
        → copy_loop false expected total crc file (es ++ (got [] ∷ rest)) ws
          ≡ copied
              (closing expected (total + length (stored es)) (crc32_update crc (stored es)))
              file
              ws
    unfolding copy_loop
    checked_total total crc [] rest fl fits = copy_loop_end false total crc file rest ws
    checked_total total crc (ReadEvent.interrupted ∷ es) rest fl fits =
        checked_total total crc es rest fl fits
    checked_total total crc (ReadEvent.failed ∷ es) rest fl fits = absurd fl
    checked_total total crc (got [] ∷ es) rest fl fits = absurd (omega arith)
    checked_total total crc (got (b ∷ bs) ∷ es) rest (_, fl) fits =
        elim (Bool-cases (ltb expected total')) [
          | inl e ↦
              rw (unwrapped, e)
                (ap (λ c. copied c file ws)
                  (sym (closing_late expected whole _ (ground (arith, split)))))
          | inr e ↦
              rw (unwrapped, e)
                (checked_total total' (crc32_update crc (b ∷ bs)) es rest fl (omega (arith, split))
                  ∙ ap₂ (λ n c. copied (closing expected n c) file ws) (sym split)
                      (sym (crc32_update-append crc (b ∷ bs) (stored es))))
        ]
      where
        total' : ℕ
        total' = total + length (b ∷ bs)

        whole : ℕ
        whole = total + length ((b ∷ bs) ++ stored es)

        split : whole ≡ total' + length (stored es)
        split = omega (arith, length-append bs (stored es))

        unwrapped : total' % 2 ^ 64 ≡ total'
        unwrapped = omega (arith, split)

-- The writes of each piece that is read take that piece.
abbrev pub AllTaken : List ReadEvent → List (List WriteEvent) → Type 0
AllTaken [] [] = Unit
AllTaken [] (w ∷ ws) = ⊥
AllTaken (ReadEvent.interrupted ∷ es) ws = AllTaken es ws
AllTaken (ReadEvent.failed ∷ es) ws = ⊥
AllTaken (got bs ∷ es) [] = ⊥
AllTaken (got bs ∷ es) (w ∷ ws) = Taken (length bs) w × AllTaken es ws

abbrev pub concat : List (List WriteEvent) → List WriteEvent
concat [] = []
concat (w ∷ ws) = w ++ concat ws

write_piece-Taken :
    (sent buf : List ℕ) (w rest : List WriteEvent)
    → Taken (length buf) w
    → write_piece sent buf (w ++ rest) ≡ some (true, sent ++ buf, rest)
unfolding write_piece
write_piece-Taken sent [] [] rest t = rw append-nil
write_piece-Taken sent [] (WriteEvent.interrupted ∷ w) rest t = absurd (omega arith)
write_piece-Taken sent [] (WriteEvent.failed ∷ w) rest t = absurd t
write_piece-Taken sent [] (wrote k ∷ w) rest t = absurd (omega arith)
write_piece-Taken sent (b ∷ buf) [] rest t = absurd (omega arith)
write_piece-Taken sent (b ∷ buf) (WriteEvent.interrupted ∷ w) rest t =
    write_piece-Taken sent (b ∷ buf) w rest t.1
write_piece-Taken sent (b ∷ buf) (WriteEvent.failed ∷ w) rest t = absurd t
write_piece-Taken sent (b ∷ buf) (wrote k ∷ w) rest t =
    write_piece-Taken (sent ++ take k (b ∷ buf)) (drop k (b ∷ buf)) w rest
      (rw (length-drop k (b ∷ buf)) t.2)
    ∙ ap (λ l. some (true, l, rest))
        (append_assoc sent (take k (b ∷ buf)) (drop k (b ∷ buf))
          ∙ ap (λ l. sent ++ l) (take-append-drop k (b ∷ buf)))

module _ (expected : ℕ) (left : List WriteEvent) where
  written_total :
      (total crc : ℕ) (file : List ℕ) (es rest : List ReadEvent) (ws : List (List WriteEvent))
      → Flowing es
      → AllTaken es ws
      → total + length (stored es) ≡ expected
      → expected < 2 ^ 64
      → copy_loop true expected total crc file (es ++ (got [] ∷ rest)) (concat ws ++ left)
        ≡ copied (some (crc32_end (crc32_update crc (stored es)))) (file ++ stored es) left
  unfolding copy_loop
  written_total total crc file [] rest [] fl t e fits =
      copy_loop_end expected true total crc file rest left
      ∙ ap₂ (λ n f. copied (closing expected n (crc32_update crc [])) f left) e
          (sym (append-nil file))
      ∙ ap (λ c. copied c (file ++ []) left) (closing_at expected (crc32_update crc []))
  written_total total crc file [] rest (w ∷ ws) fl t e fits = absurd t
  written_total total crc file (ReadEvent.interrupted ∷ es) rest ws fl t e fits =
      written_total total crc file es rest ws fl t e fits
  written_total total crc file (ReadEvent.failed ∷ es) rest ws fl t e fits = absurd fl
  written_total total crc file (got bs ∷ es) rest [] fl t e fits = absurd t
  written_total total crc file (got [] ∷ es) rest (w ∷ ws) fl t e fits = absurd (omega arith)
  written_total total crc file (got (b ∷ bs) ∷ es) rest (w ∷ ws) (_, fl) (tw, t) e fits =
      rw (unwrapped, within)
        (ap (λ r. after_piece r go_on)
            (ap (write_piece file (b ∷ bs)) (append_assoc w (concat ws) left)
              ∙ write_piece-Taken file (b ∷ bs) w (concat ws ++ left) tw)
          ∙ written_total total' (crc32_update crc (b ∷ bs)) (file ++ (b ∷ bs)) es rest ws fl t
              (sym split ∙ e) fits
          ∙ ap₂ (λ c f. copied (some (crc32_end c)) f left)
              (sym (crc32_update-append crc (b ∷ bs) (stored es)))
              (append_assoc file (b ∷ bs) (stored es)))
    where
      total' : ℕ
      total' = total + length (b ∷ bs)

      go_on : List ℕ → List WriteEvent → Option Copied
      go_on file' ws' =
          copy_loop true expected total' (crc32_update crc (b ∷ bs)) file' (es ++ (got [] ∷ rest))
            ws'

      split : total + length ((b ∷ bs) ++ stored es) ≡ total' + length (stored es)
      split = omega (arith, length-append bs (stored es))

      unwrapped : total' % 2 ^ 64 ≡ total'
      unwrapped = omega (arith, split)

      within : ltb expected total' ≡ false
      within = ground (arith, split)

module _ (expected : ℕ) (file : List ℕ) (es rest : List ReadEvent) (fl : Flowing es) where
  -- Without an output, copy_and_crc of an input of under 2^64 bytes, read in pieces of any size and
  -- interrupted anywhere, gives the CRC-32 of the input if the input has the expected length, and
  -- fails otherwise.
  pub copy_and_crc_checks :
      (ws : List WriteEvent)
      → length (stored es) < 2 ^ 64
      → copy_and_crc false expected file (es ++ (got [] ∷ rest)) ws
        ≡ copied (if length (stored es) == expected then some (crc32 (stored es)) else none) file ws
  unfolding copy_and_crc crc32
  copy_and_crc_checks ws fits =
      checked_total expected file ws 0 crc32_begin es rest fl (omega arith)
      ∙ ap (λ n. copied (closing expected n (crc32_update crc32_begin (stored es))) file ws)
          {y = length (stored es)} (omega arith)

  -- With an output that takes every byte, it also appends the input to the output.
  pub copy_and_crc_copies :
      (ws : List (List WriteEvent)) (left : List WriteEvent)
      → AllTaken es ws
      → length (stored es) ≡ expected
      → expected < 2 ^ 64
      → copy_and_crc true expected file (es ++ (got [] ∷ rest)) (concat ws ++ left)
        ≡ copied (some (crc32 (stored es))) (file ++ stored es) left
  unfolding copy_and_crc crc32
  copy_and_crc_copies ws left t e fits =
      written_total expected left 0 crc32_begin file es rest ws fl t (omega arith) fits
