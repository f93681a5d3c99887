-- ===== src/Firmware/Image.antt =====
-- copy_and_crc, pack_image, read_image_header, verify_image_file, inspect_or_verify and the update
-- policy of firmware/image.c. A file descriptor is the list of answers to its reads or writes.
pub mod Copy
pub mod Pack
pub mod Verify
use embedded_systems_runtime.Prelude.{
  ℕ, zero, suc, ◌+◌, ◌-◌, ◌*◌, ◌%◌, ◌^◌, Option, none, some, Bool, true, false, not, ◌||◌, ◌&&◌,
  List, [], ◌∷◌, ◌++◌, ◌==◌, ltb, leb, if◌then◌else◌, length, take, drop, replicate, write_at,
}
use embedded_systems_runtime.Protocol.Crc.{crc32_begin, crc32_update, crc32_end}
use embedded_systems_runtime.Protocol.Stream.{ReadEvent, got, WriteEvent, wrote}
use embedded_systems_runtime.Firmware.Header.{
  FwHeader, fw_header_size, serialize_header, parse_header,
}

abbrev pub fw_max_image : ℕ
fw_max_image = 64 * 1024 * 1024

-- The inner loop of copy_and_crc: `buf` is what is left of the piece, `sent` what the file holds.
unfoldable pub write_piece :
    List ℕ → List ℕ → List WriteEvent → Option (Bool × List ℕ × List WriteEvent)
write_piece sent [] ws = some (true, sent, ws)
write_piece sent (b ∷ buf) [] = none
write_piece sent (b ∷ buf) (WriteEvent.interrupted ∷ ws) = write_piece sent (b ∷ buf) ws
write_piece sent (b ∷ buf) (WriteEvent.failed ∷ ws) = some (false, sent, ws)
write_piece sent (b ∷ buf) (wrote w ∷ ws) =
    write_piece (sent ++ take w (b ∷ buf)) (drop w (b ∷ buf)) ws

-- The result of copy_and_crc: the checksum where it returns 0, what the output file holds, and the
-- reads and writes that are left.
pub record Copied : Type 0 where
  pub crc_out : Option ℕ
  pub file : List ℕ
  pub writes : List WriteEvent

abbrev pub copied : Option ℕ → List ℕ → List WriteEvent → Option Copied
copied crc_out file writes = some (record { crc_out = crc_out; file = file; writes = writes })

-- After a piece was written: go on, or give up.
unfoldable pub after_piece :
    Option (Bool × List ℕ × List WriteEvent)
    → (List ℕ → List WriteEvent → Option Copied)
    → Option Copied
after_piece none next = none
after_piece (some (true, file, ws)) next = next file ws
after_piece (some (false, file, ws)) next = copied none file ws

-- `to_file` is `out_fd >= 0`.
unfoldable pub copy_loop :
    Bool → ℕ → ℕ → ℕ → List ℕ → List ReadEvent → List WriteEvent → Option Copied
unfolding after_piece write_piece
copy_loop to_file expected total crc file [] ws = none
copy_loop to_file expected total crc file (ReadEvent.interrupted ∷ rs) ws =
    copy_loop to_file expected total crc file rs ws
copy_loop to_file expected total crc file (ReadEvent.failed ∷ rs) ws = copied none file ws
copy_loop to_file expected total crc file (got [] ∷ rs) ws =
    if not (total == expected) then copied none file ws else copied (some (crc32_end crc)) file ws
copy_loop to_file expected total crc file (got (b ∷ bs) ∷ rs) ws =
    let total' = (total + length (b ∷ bs)) % 2 ^ 64 in
    let crc' = crc32_update crc (b ∷ bs) in
    if ltb expected total'
    then copied none file ws
    else (if to_file
        then after_piece (write_piece file (b ∷ bs) ws)
            (λ file' ws'. copy_loop to_file expected total' crc' file' rs ws')
        else copy_loop to_file expected total' crc' file rs ws)

unfoldable pub copy_and_crc : Bool → ℕ → List ℕ → List ReadEvent → List WriteEvent → Option Copied
copy_and_crc to_file expected file rs ws = copy_loop to_file expected 0 crc32_begin file rs ws

-- What the operating system answers to pack_image, in the order of the calls. `st_size` is `none`
-- where fstat fails or the size is negative.
pub record PackIo : Type 0 where
  pub input_opens : Bool
  pub st_size : Option ℕ
  pub output_opens : Bool
  pub first : WriteEvent
  pub reads : List ReadEvent
  pub writes : List WriteEvent
  pub seeks : Bool
  pub last : WriteEvent

-- A write that took the 40 bytes of a header.
unfoldable pub took_header : WriteEvent → Bool
took_header (wrote n) = n == fw_header_size
took_header _ = false

-- What that write left in the file.
unfoldable pub header_part : WriteEvent → List ℕ → List ℕ
header_part (wrote n) hdr = take n hdr
header_part _ hdr = []

-- The exit status, and what the output file holds; the file is `none` where it was not opened.
abbrev pub exited : ℕ → Option (List ℕ) → Option (ℕ × Option (List ℕ))
exited status file = some (status, file)

-- From the final seek on.
unfoldable pub finalize :
    FwHeader → Option Copied → Bool → WriteEvent → Option (ℕ × Option (List ℕ))
unfolding took_header header_part
finalize h none seeks last = none
finalize h (some c) seeks last = elim c.crc_out [
  | none ↦ exited 1 (some c.file)
  | some crc ↦
      (if not seeks
        then exited 1 (some c.file)
        else (let hdr = serialize_header (record h { crc32 = crc }) in
            exited (if not (took_header last) then 1 else 0)
              (some (write_at c.file 0 (header_part last hdr)))))
]

unfoldable pub pack_sized : FwHeader → ℕ → PackIo → Option (ℕ × Option (List ℕ))
unfolding finalize
pack_sized meta st_size io =
    if ltb fw_max_image st_size
    then exited 1 none
    else (if not io.output_opens
        then exited 1 none
        else (if not (took_header io.first)
            then exited 1 (some (header_part io.first (replicate 40 0)))
            else (let h = record meta { image_size = st_size } in
                finalize h (copy_and_crc true h.image_size (replicate 40 0) io.reads io.writes)
                  io.seeks io.last)))

unfoldable pub pack_image : FwHeader → PackIo → Option (ℕ × Option (List ℕ))
unfolding pack_sized
pack_image meta io =
    if not io.input_opens
    then exited 1 none
    else elim io.st_size [ none ↦ exited 1 none | some st_size ↦ pack_sized meta st_size io ]

-- The loop of read_image_header: `n` bytes are wanted, `buf` holds those that came.
unfoldable pub header_bytes :
    ℕ → List ℕ → List ReadEvent → Option (Option (List ℕ) × List ReadEvent)
header_bytes zero buf rs = some (some buf, rs)
header_bytes (suc n) buf [] = none
header_bytes (suc n) buf (ReadEvent.interrupted ∷ rs) = header_bytes (suc n) buf rs
header_bytes (suc n) buf (ReadEvent.failed ∷ rs) = some (none, rs)
header_bytes (suc n) buf (got [] ∷ rs) = some (none, rs)
header_bytes (suc n) buf (got (b ∷ bs) ∷ rs) = header_bytes (n - length bs) (buf ++ (b ∷ bs)) rs

unfoldable pub parse_bytes :
    Option (Option (List ℕ) × List ReadEvent) → Option (Option FwHeader × List ReadEvent)
parse_bytes none = none
parse_bytes (some (none, rs)) = some (none, rs)
parse_bytes (some (some buf, rs)) = some (parse_header buf, rs)

unfoldable pub read_image_header : List ReadEvent → Option (Option FwHeader × List ReadEvent)
unfolding header_bytes parse_bytes
read_image_header rs = parse_bytes (header_bytes 40 [] rs)

-- A checked image: its header, and the tests of its size and checksum.
pub record Checked : Type 0 where
  pub header : FwHeader
  pub size_ok : Bool
  pub crc_ok : Bool

unfoldable pub same_crc : Option Copied → FwHeader → Option Bool
same_crc none h = none
same_crc (some c) h = elim c.crc_out [ none ↦ some false | some actual ↦ some (actual == h.crc32) ]

unfoldable pub checked : FwHeader → Bool → Option Bool → Option (Option Checked)
checked h size_ok none = none
checked h size_ok (some crc_ok) =
    some (some (record { header = h; size_ok = size_ok; crc_ok = crc_ok }))

-- From the header on; `st_size` is `none` where fstat fails.
unfoldable pub check_body : FwHeader → Option ℕ → List ReadEvent → Option (Option Checked)
unfolding same_crc checked
check_body h none rs = some none
check_body h (some st_size) rs =
    let expected_file = (fw_header_size + h.image_size) % 2 ^ 64 in
    let size_ok = st_size == expected_file in
    if size_ok && leb h.image_size fw_max_image
    then checked h size_ok (same_crc (copy_and_crc false h.image_size [] rs []) h)
    else checked h size_ok (some false)

unfoldable pub after_header :
    Option (Option FwHeader × List ReadEvent) → Option ℕ → Option (Option Checked)
unfolding check_body
after_header none st_size = none
after_header (some (none, rs)) st_size = some none
after_header (some (some h, rs)) st_size = check_body h st_size rs

-- `none` inside is the return value -1.
unfoldable pub verify_image_file : Bool → List ReadEvent → Option ℕ → Option (Option Checked)
unfolding after_header
verify_image_file opens rs st_size =
    if not opens then some none else after_header (read_image_header rs) st_size

-- inspect_or_verify does the same and gives an exit status.
unfoldable pub inspect_or_verify : Bool → Bool → List ReadEvent → Option ℕ → Option ℕ
inspect_or_verify verify opens rs st_size = elim (verify_image_file opens rs st_size) [
  | none ↦ none
  | some none ↦ some 1
  | some (some c) ↦ some (if verify && not (c.size_ok && c.crc_ok) then 1 else 0)
]
