-- ===== src/Vm/Names.antt =====
-- childName, bindingLabelValue and clipNameSegment of controller/util.go.
use Prim.Native.Char.{Char, code}
use Prim.Native.String.{len, slice}
use ansible_supervisor_servi.Prelude.{
  ℕ, ◌-◌, String, Bool, ◌||◌, ltb, leb, ◌==◌, concat, if◌then◌else◌,
}

-- The names are ASCII: they are names of Kubernetes objects.
abbrev is_trimmed : Char → Bool
is_trimmed c = code c == 45 || code c == 46

abbrev attach_kept : Char → String → String
attach_kept c String.[] = if is_trimmed c then "" else String.◌∷◌ c ""
attach_kept c (String.◌∷◌ d s) = String.◌∷◌ c (String.◌∷◌ d s)

-- strings.TrimRight(s, "-.")
unfoldable pub trim_dashes : String → String
trim_dashes String.[] = ""
trim_dashes (String.◌∷◌ c s) = attach_kept c (trim_dashes s)

abbrev pub child_name_half_limit : ℕ
child_name_half_limit = 110

abbrev pub child_name_hash_len : ℕ
child_name_hash_len = 10

abbrev pub max_label_value : ℕ
max_label_value = 63

unfoldable pub clip_name_segment : String → String
unfolding trim_dashes
clip_name_segment s =
    trim_dashes (if ltb child_name_half_limit (len s) then slice s 0 child_name_half_limit else s)

-- `sha256_hex` is the SHA-256 digest in hexadecimal.
unfoldable pub child_name : (String → String) → String → String
unfolding clip_name_segment
child_name sha256_hex vm_name = concat "vm-" (
    concat (clip_name_segment vm_name)
      (concat "-" (slice (sha256_hex vm_name) 0 child_name_hash_len)))

unfoldable pub binding_label_value : (String → String) → String → String
unfolding clip_name_segment
binding_label_value sha256_hex name =
    if leb (len name) max_label_value
    then name
    else concat (clip_name_segment (slice name 0 (max_label_value - child_name_hash_len - 1)))
        (concat "-" (slice (sha256_hex name) 0 child_name_hash_len))
