-- ===== src/Elf/Tables.antt =====
-- What elf_image_open of elf/elf_parser.c guarantees of the images that it opens.
use embedded_systems_runtime.Prelude.{
  ℕ, ◌+◌, ◌-◌, ◌*◌, ◌%◌, ◌^◌, ◌≤◌, ◌<◌, ◌≡◌, ◌⊎◌, refl, Bool, true, false, inl, inr, List, length,
  if◌then◌else◌, arith, Bool-cases, not, ◌==◌, ◌&&◌, leb, ltb, leb→le,
}
use embedded_systems_runtime.Protocol.Endian.{at}
use embedded_systems_runtime.Elf.{
  Ehdr, ElfImage, Opened, opened, refused, range_ok, bad_table, check_class, check_image,
  elf_image_open,
}

-- A table is empty, or it has entries of some size and lies inside the file.
abbrev pub Inside : ℕ → ℕ → ℕ → ℕ → Type 0
Inside size off entsize num = (num ≡ 0) ⊎ ((0 < entsize) × (off + entsize * num ≤ size))

bad_table-Inside :
    (size off entsize num : ℕ)
    → entsize * num < 2 ^ 64
    → bad_table size off entsize num ≡ false
    → Inside size off entsize num
unfolding bad_table range_ok
bad_table-Inside size off entsize num fits h = ground (arith, unwrapped (entsize * num) fits)
  where
    unwrapped : (q : ℕ) → q < 2 ^ 64 → q % 2 ^ 64 ≡ q
    unwrapped q small = omega arith

-- What the image was checked to have.
pub record Sound (h : Ehdr) (image : ElfImage) (header_size : ℕ) : Type 0 where
  pub whole : header_size ≤ length image.bytes
  pub ehsize : header_size ≤ h.e_ehsize
  pub program_headers : Inside (length image.bytes) h.e_phoff h.e_phentsize h.e_phnum
  pub section_headers : Inside (length image.bytes) h.e_shoff h.e_shentsize h.e_shnum
  pub entry : image.entry ≡ h.e_entry

-- The class, and what was checked.
pub record Checked (elf_class header_size : ℕ) (h : Ehdr) (image : ElfImage) : Type 0 where
  pub sound : Sound h image header_size
  pub same_class : image.elf_class ≡ elf_class

abbrev CheckedIf : ℕ → ℕ → (List ℕ → Ehdr) → Opened → Type 0
CheckedIf elf_class header_size hdr (opened image) =
    Checked elf_class header_size (hdr image.bytes) image
CheckedIf elf_class header_size hdr (refused e) = Unit

header_range : (size bytes : ℕ) → range_ok size 0 bytes ≡ leb bytes size
unfolding range_ok
header_range size bytes = rw zero_less (ground arith)
  where
    zero_less : size - 0 ≡ size
    zero_less = omega arith

check_class-CheckedIf :
    (elf_class header_size : ℕ) (hdr : List ℕ → Ehdr) (bytes : List ℕ)
    → (hdr bytes).e_phentsize * (hdr bytes).e_phnum < 2 ^ 64
    → (hdr bytes).e_shentsize * (hdr bytes).e_shnum < 2 ^ 64
    → CheckedIf elf_class header_size hdr (check_class elf_class header_size (hdr bytes) bytes)
unfolding check_class
check_class-CheckedIf elf_class header_size hdr bytes pf sf =
    elim (Bool-cases (leb header_size (length bytes))) [
      | inr e ↦ rw (CheckedIf, header_range (length bytes) header_size, e) tt
      | inl whole ↦ elim (Bool-cases (ltb (hdr bytes).e_ehsize header_size)) [
        | inl e ↦ rw (CheckedIf, header_range (length bytes) header_size, whole, e) tt
        | inr ehsize ↦
            elim (Bool-cases (
              bad_table (length bytes) (hdr bytes).e_phoff (hdr bytes).e_phentsize
                (hdr bytes).e_phnum)) [
                  | inl e ↦
                      rw (CheckedIf, header_range (length bytes) header_size, whole, ehsize, e) tt
                  | inr ph ↦
                      elim (Bool-cases (
                        bad_table (length bytes) (hdr bytes).e_shoff (hdr bytes).e_shentsize
                          (hdr bytes).e_shnum)) [
                            | inl e ↦
                                rw
                                  (
                                    CheckedIf,
                                    header_range (length bytes) header_size,
                                    whole,
                                    ehsize,
                                    ph,
                                    e,
                                  )
                                  tt
                            | inr sh ↦
                                rw
                                  (
                                    CheckedIf,
                                    header_range (length bytes) header_size,
                                    whole,
                                    ehsize,
                                    ph,
                                    sh,
                                  )
                                  (record {
                                    sound = record {
                                      whole = leb→le header_size (length bytes) whole;
                                      ehsize = ground arith;
                                      program_headers =
                                          bad_table-Inside (length bytes) (hdr bytes).e_phoff
                                            (hdr bytes).e_phentsize (hdr bytes).e_phnum pf ph;
                                      section_headers =
                                          bad_table-Inside (length bytes) (hdr bytes).e_shoff
                                            (hdr bytes).e_shentsize (hdr bytes).e_shnum sf sh;
                                      entry = refl;
                                    };
                                    same_class = refl;
                                  })
                          ]
                ]
      ]
    ]

module _ (ehdr32 ehdr64 : List ℕ → Ehdr) where
  -- What is known of an opened file.
  abbrev pub Known : Opened → Type 0
  Known (refused e) = Unit
  Known (opened image) =
      Checked 1 52 (ehdr32 image.bytes) image ⊎ Checked 2 64 (ehdr64 image.bytes) image

  known32 : (o : Opened) → CheckedIf 1 52 ehdr32 o → Known o
  known32 (refused e) h = tt
  known32 (opened image) h = inl h

  known64 : (o : Opened) → CheckedIf 2 64 ehdr64 o → Known o
  known64 (refused e) h = tt
  known64 (opened image) h = inr h

  -- If the tables of both classes are below 2^64 bytes, as fields of 16 bits make them, every file
  -- that elf_image_open opens is of class 1 or 2, holds the whole header of its class, and each of its
  -- two tables is empty or lies inside the file.
  pub elf_image_open-Known :
      (opens stats maps : Bool) (bytes : List ℕ)
      → (ehdr32 bytes).e_phentsize * (ehdr32 bytes).e_phnum < 2 ^ 64
      → (ehdr32 bytes).e_shentsize * (ehdr32 bytes).e_shnum < 2 ^ 64
      → (ehdr64 bytes).e_phentsize * (ehdr64 bytes).e_phnum < 2 ^ 64
      → (ehdr64 bytes).e_shentsize * (ehdr64 bytes).e_shnum < 2 ^ 64
      → Known (elf_image_open ehdr32 ehdr64 opens stats maps bytes)
  unfolding elf_image_open check_image
  elf_image_open-Known opens stats maps bytes p32 s32 p64 s64 = both (not opens) _ _ tt (
      both (not stats) _ _ tt (
        both (ltb (length bytes) 16) _ _ tt (
          both (not maps) _ _ tt (
            both
              (not (
                at bytes 0 == 0x7f && (at bytes 1 == 69 && (at bytes 2 == 76 && at bytes 3 == 70))))
              _ _ tt
              (both (not (at bytes 5 == 1)) _ _ tt (
                both (at bytes 4 == 1) _ _
                  (known32 (check_class 1 52 (ehdr32 bytes) bytes)
                    (check_class-CheckedIf 1 52 ehdr32 bytes p32 s32))
                  (both (at bytes 4 == 2) _ _
                    (known64 (check_class 2 64 (ehdr64 bytes) bytes)
                      (check_class-CheckedIf 2 64 ehdr64 bytes p64 s64))
                    tt)))))))
    where
      both : (b : Bool) (x y : Opened) → Known x → Known y → Known (if b then x else y)
      both true x y hx hy = hx
      both false x y hx hy = hy
