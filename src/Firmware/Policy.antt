-- ===== src/Firmware/Policy.antt =====
-- arch_name, arch_parse, version_parse, semver_cmp and check_update_policy of firmware/image.c.
use embedded_systems_runtime.Prelude.{
  ℕ, zero, suc, ◌<◌, ◌≤◌, ◌≡◌, ◌⊎◌, ◌↔◌, inl, inr, refl, ap, sym, ◌∙◌, Option, none, some, [], ◌∷◌,
  Bool, true, false, not, ◌||◌, ◌&&◌, List, ◌==◌, ltb, if◌then◌else◌, codes, arith, Bool-cases,
  Option-cases,
}
use embedded_systems_runtime.Protocol.Stream.{ReadEvent}
use embedded_systems_runtime.Firmware.Header.{FwHeader}
use embedded_systems_runtime.Firmware.Image.{Checked, verify_image_file}

abbrev pub arch_generic : ℕ
arch_generic = 0

abbrev pub arch_x86_64 : ℕ
arch_x86_64 = 1

abbrev pub arch_arm64 : ℕ
arch_arm64 = 2

abbrev pub arch_i386 : ℕ
arch_i386 = 3

unfoldable pub arch_name : ℕ → List ℕ
arch_name arch =
    if arch == arch_x86_64
    then codes "x86_64"
    else (if arch == arch_arm64
        then codes "arm64"
        else (if arch == arch_i386 then codes "i386" else codes "generic"))

-- strcmp(a, b) == 0.
unfoldable pub same_text : List ℕ → List ℕ → Bool
same_text List.[] List.[] = true
same_text [] (y ∷ ys) = false
same_text (x ∷ xs) [] = false
same_text (x ∷ xs) (y ∷ ys) = (x == y) && same_text xs ys

unfoldable pub arch_parse : List ℕ → Option ℕ
unfolding same_text
arch_parse s =
    if same_text s (codes "generic")
    then some arch_generic
    else (if same_text s (codes "x86_64")
        then some arch_x86_64
        else (if same_text s (codes "arm64") || same_text s (codes "aarch64")
            then some arch_arm64
            else (if same_text s (codes "i386") || same_text s (codes "x86")
                then some arch_i386
                else none)))

-- The name of each architecture that an image can have is parsed back to it; any other number is
-- named as the generic architecture.
pub arch_parse-arch_name :
    (arch : ℕ) → arch_parse (arch_name arch) ≡ some (if ltb 3 arch then arch_generic else arch)
unfolding arch_parse arch_name
arch_parse-arch_name arch = elim (Bool-cases (ltb 3 arch)) [
  | inl e ↦
      ap arch_parse (unnamed arch (ground arith))
      ∙ ap (λ b. some (if b then arch_generic else arch)) (sym e)
  | inr e ↦ named arch (ground arith)
]
  where
    unnamed : (arch : ℕ) → 3 < arch → arch_name arch ≡ codes "generic"
    unnamed arch h = ground arith

    named :
        (arch : ℕ)
        → arch ≤ 3
        → arch_parse (arch_name arch) ≡ some (if ltb 3 arch then arch_generic else arch)
    named zero h = refl
    named (suc zero) h = refl
    named (suc (suc zero)) h = refl
    named (suc (suc (suc zero))) h = refl
    named (suc (suc (suc (suc arch)))) h = absurd (omega arith)

-- The result of semver_cmp: -1, 0 or 1.
pub data Sign : Type 0 where
  minus_one null one : Sign

unfoldable pub semver_cmp : FwHeader → FwHeader → Sign
semver_cmp a b =
    if not (a.major == b.major)
    then (if ltb b.major a.major then one else minus_one)
    else (if not (a.minor == b.minor)
        then (if ltb b.minor a.minor then one else minus_one)
        else (if not (a.patch == b.patch)
            then (if ltb b.patch a.patch then one else minus_one)
            else null))

-- The order of semantic versions: by the major number, then the minor, then the patch.
abbrev pub Newer : FwHeader → FwHeader → Type 0
Newer a b =
    (b.major < a.major)
    ⊎ ((a.major ≡ b.major) × ((b.minor < a.minor) ⊎ ((a.minor ≡ b.minor) × (b.patch < a.patch))))

abbrev pub SameVersion : FwHeader → FwHeader → Type 0
SameVersion a b = (a.major ≡ b.major) × (a.minor ≡ b.minor) × (a.patch ≡ b.patch)

-- semver_cmp is 1 exactly if the first version is newer, -1 exactly if the second is, and 0 exactly
-- if they are the same.
pub semver_cmp_lem :
    (a b : FwHeader)
    → ((semver_cmp a b ≡ one) ↔ Newer a b)
      × ((semver_cmp a b ≡ minus_one) ↔ Newer b a)
      × ((semver_cmp a b ≡ null) ↔ SameVersion a b)
unfolding semver_cmp
semver_cmp_lem a b = ground arith

abbrev pub zero_header : FwHeader
zero_header = record { major = 0; minor = 0; patch = 0; arch = 0; image_size = 0; crc32 = 0 }

-- cmp > 0
abbrev pub is_one : Sign → Bool
is_one one = true
is_one _ = false

is_one-Newer : (a b : FwHeader) → (is_one (semver_cmp a b) ≡ true) ↔ Newer a b
unfolding semver_cmp
is_one-Newer a b = ground arith

-- sscanf(s, "%u.%u.%u%c", ...) where it returns 3: the three numbers.
module _ (scan : List ℕ → Option (ℕ × ℕ × ℕ)) where
  unfoldable pub version_parse : List ℕ → FwHeader → Option FwHeader
  version_parse s h = elim (scan s) [
    | none ↦ none
    | some (a, b, c) ↦
        (if ltb 65535 a || ltb 65535 b || ltb 65535 c
          then none
          else some (record h { major = a; minor = b; patch = c }))
  ]

  -- The decision, once the image was checked.
  unfoldable pub decide_update : FwHeader → Bool → Option (Option Checked) → Option ℕ
  decide_update current allow_downgrade none = none
  decide_update current allow_downgrade (some none) = some 1
  decide_update current allow_downgrade (some (some c)) =
      if not c.size_ok || not c.crc_ok
      then some 1
      else (let accepted = allow_downgrade || is_one (semver_cmp c.header current) in
          some (if accepted then 0 else 1))

  unfoldable pub check_parsed : Option FwHeader → Bool → Option (Option Checked) → Option ℕ
  unfolding decide_update
  check_parsed none allow_downgrade checked = some 2
  check_parsed (some current_h) allow_downgrade checked =
      decide_update current_h allow_downgrade checked

  unfoldable pub check_update_policy : List ℕ → Bool → Bool → List ReadEvent → Option ℕ → Option ℕ
  unfolding check_parsed
  check_update_policy current allow_downgrade opens rs st_size =
      check_parsed (version_parse current zero_header) allow_downgrade
        (verify_image_file opens rs st_size)

  decide_update_lem :
      (h : FwHeader) (allow_downgrade : Bool) (c : Checked)
      → (decide_update h allow_downgrade (some (some c)) ≡ some 0)
        ↔ ((c.size_ok ≡ true) × (c.crc_ok ≡ true) × ((allow_downgrade ≡ true) ⊎ Newer c.header h))
  unfolding decide_update
  decide_update_lem h allow_downgrade c = ground (arith, is_one-Newer c.header h)

  -- The update is accepted on good grounds: the current version parses, the image was checked with a
  -- good size and checksum, and it is newer than the current version or a downgrade is allowed.
  pub record Accepted (current : List ℕ) (allow_downgrade : Bool)
      (checked : Option (Option Checked)) : Type 0 where
    pub current_h : FwHeader
    pub image : Checked
    pub parses : version_parse current zero_header ≡ some current_h
    pub found : checked ≡ some (some image)
    pub size_ok : image.size_ok ≡ true
    pub crc_ok : image.crc_ok ≡ true
    pub allowed : (allow_downgrade ≡ true) ⊎ Newer image.header current_h

  decided :
      (current : List ℕ) (allow_downgrade : Bool) (h : FwHeader) (r : Option (Option Checked))
      → version_parse current zero_header ≡ some h
      → decide_update h allow_downgrade r ≡ some 0
      → Accepted current allow_downgrade r
  unfolding decide_update
  decided current allow_downgrade h none e d = absurd (ground arith)
  decided current allow_downgrade h (some none) e d = absurd (ground arith)
  decided current allow_downgrade h (some (some c)) e d =
      let g = (decide_update_lem h allow_downgrade c).0 d in
      record {
        current_h = h;
        image = c;
        parses = e;
        found = refl;
        size_ok = g.0;
        crc_ok = g.1;
        allowed = g.2;
      }

  -- The exit status of check_update_policy is 0 exactly if the update is accepted on good grounds.
  pub check_update_policy_lem :
      (current : List ℕ) (allow_downgrade opens : Bool) (rs : List ReadEvent) (st_size : Option ℕ)
      → (check_update_policy current allow_downgrade opens rs st_size ≡ some 0)
        ↔ Accepted current allow_downgrade (verify_image_file opens rs st_size)
  unfolding check_update_policy check_parsed
  check_update_policy_lem current allow_downgrade opens rs st_size = (accepted, accepts)
    where
      accepted :
          check_update_policy current allow_downgrade opens rs st_size ≡ some 0
          → Accepted current allow_downgrade (verify_image_file opens rs st_size)
      accepted e = elim (Option-cases (version_parse current zero_header)) [
        | inl p ↦ absurd (ground arith)
        | inr (h, p) ↦
            decided current allow_downgrade h (verify_image_file opens rs st_size) p (ground arith)
      ]

      accepts :
          Accepted current allow_downgrade (verify_image_file opens rs st_size)
          → check_update_policy current allow_downgrade opens rs st_size ≡ some 0
      accepts a =
          rw (a.parses, a.found)
            ((decide_update_lem a.current_h allow_downgrade a.image).1
              (a.size_ok, a.crc_ok, a.allowed))
