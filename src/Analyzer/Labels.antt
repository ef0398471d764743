-- ===== src/Analyzer/Labels.antt =====
-- analyzer.go: the labels under which resources are counted.
use terraform_state_manager.Prelude.{
  List, [], ◌∷◌, Bool, true, false, Option, none, some, ◌≡◌, refl, Bytes, codes, trim_prefix, cut,
  split, join,
}

abbrev pub is_blank : Bytes → Bool
is_blank [] = true
is_blank (c ∷ s) = false

-- What stands before the first occurrence, or the whole text.
abbrev pub before_cut : Bytes → Option (Bytes × Bytes) → Bytes
before_cut s none = s
before_cut s (some (before, behind)) = before

abbrev behind_cut : Option (Bytes × Bytes) → Option Bytes
behind_cut none = none
behind_cut (some (before, behind)) = some behind

-- `ref[i+2 : i+2+j]`, when both quotes are there.
unfoldable pub quoted : Bytes → Option Bytes → Bytes
unfolding cut
quoted ref none = ref
quoted ref (some behind) = before_cut ref (cut behind (codes "\""))

-- The last two of three or more parts; `none` for fewer.
unfoldable pub last_two : List Bytes → Option (List Bytes)
last_two (a ∷ b ∷ c ∷ []) = some (b ∷ c ∷ [])
last_two (a ∷ b ∷ c ∷ d ∷ ps) = last_two (b ∷ c ∷ d ∷ ps)
last_two _ = none

-- `resourceType[:i]` for an underscore at `i > 0`
unfoldable pub type_label : Option (Bytes × Bytes) → Bytes
type_label (some (c ∷ before, behind)) = c ∷ before
type_label _ = codes "unknown"

-- The reference without a registry path loses its alias.
unfoldable pub without_alias : Bytes → Bytes
unfolding cut
without_alias ref = elim (cut ref (codes "/")) [
  | some _ ↦ ref
  | none ↦ before_cut ref (cut ref (codes "."))
]

unfoldable pub provider_label : Bytes → Bytes → Option (List Bytes) → Bytes
unfolding without_alias type_label
provider_label ref typ (some parts) = join b'/' parts
provider_label [] typ none = type_label (cut typ (codes "_"))
provider_label (c ∷ ref) typ none = without_alias (c ∷ ref)

-- normalizeProvider
unfoldable pub normalize_provider : Bytes → Bytes → Bytes
unfolding quoted trim_prefix split last_two provider_label type_label
normalize_provider [] typ = type_label (cut typ (codes "_"))
normalize_provider (c ∷ provider) typ =
    let opened = quoted (c ∷ provider) (behind_cut (cut (c ∷ provider) (codes "[\""))) in
    let ref = trim_prefix opened (codes "provider.") in
    provider_label ref typ (last_two (split b'/' ref))

unfoldable pub module_label : Bytes → Bytes
module_label [] = codes "root"
module_label (c ∷ m) = c ∷ m

provider_test :
    normalize_provider (codes "provider[\"registry.terraform.io/hashicorp/aws\"]") (codes "aws_vpc")
    ≡ codes "hashicorp/aws"
unfolding normalize_provider join
provider_test = refl

alias_test : normalize_provider (codes "provider.aws.west") (codes "aws_vpc") ≡ codes "aws"
unfolding normalize_provider join
alias_test = refl

type_test : normalize_provider [] (codes "aws_vpc") ≡ codes "aws"
unfolding normalize_provider join
type_test = refl
