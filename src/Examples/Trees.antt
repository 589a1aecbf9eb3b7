-- ===== src/Examples/Trees.antt =====
-- Checkpoint trees of three entries, and members of an object in two orders.
use Prim.Native.Nat.{◌%◌}
use ski_framework.Prelude.{
  ℕ, zero, suc, ◌+◌, ◌*◌, ◌≡◌, ◌≢◌, ◌⊎◌, refl, true, Option, none, some, List, [], ◌∷◌, String, All,
  arith, eq_iff,
}
use ski_framework.Hex.{Bytes, hex, fromhex}
use ski_framework.Hex.Roundtrip.{IsByte}
use ski_framework.Value.{field, end, str, null, obj}
use ski_framework.Merkle.{
  raw_leaves, merkle_root, inclusion_proof, verify_inclusion, climb, round, halve, root, path, leaf,
  node, split,
}
use ski_framework.Merkle.Hashed.{inclusion_texts, root_texts}
use ski_framework.Merkle.Injective.{Collides, IsDigest}
use ski_framework.Merkle.Accepted.{inclusion_proof_accepted}
use ski_framework.Merkle.Binding.{verify_inclusion_sound}
use ski_framework.Merkle.Pinned.{merkle_root_pins}
use ski_framework.Canonical.{Platform, canonicalize}
use ski_framework.Canonical.Reorder.{swap, canonicalize_reordered}

abbrev sum : Bytes → ℕ
sum [] = 0
sum (b ∷ bs) = b + 3 * sum bs

abbrev pub blank : ℕ → Bytes
blank zero = []
blank (suc n) = 0 ∷ blank n

-- a digest of 32 bytes, in place of SHA-256
abbrev pub toy : Bytes → Bytes
toy x = sum x % 256 ∷ blank 31

blank-IsByte : (n : ℕ) → All IsByte (blank n)
blank-IsByte zero = tt
blank-IsByte (suc n) = (omega arith, blank-IsByte n)

pub toy-IsDigest : (x : Bytes) → IsDigest (toy x)
toy-IsDigest x = (refl, (omega arith, blank-IsByte 31))

toy-IsByte : (x : Bytes) → All IsByte (toy x)
toy-IsByte x = (toy-IsDigest x).1

abbrev pub first : String
first = "0700000000000000000000000000000000000000000000000000000000000000"

abbrev second : String
second = "0a00000000000000000000000000000000000000000000000000000000000000"

abbrev third : String
third = "ff00000000000000000000000000000000000000000000000000000000000000"

abbrev pub three : List String
three = first ∷ second ∷ third ∷ []

abbrev pub three_leaves : List Bytes
three_leaves = (7 ∷ blank 31) ∷ (10 ∷ blank 31) ∷ (255 ∷ blank 31) ∷ []

pub three-parsed : raw_leaves three ≡ some three_leaves
unfolding raw_leaves
three-parsed = refl

inclusion_proof_accepted_example :
    (proof : List String) × (top : String) × (inclusion_proof toy three 2 ≡ some proof)
    × (merkle_root toy three ≡ some top)
    × (verify_inclusion toy third 2 3 proof top ≡ some true)
inclusion_proof_accepted_example =
    inclusion_proof_accepted toy toy-IsByte three three_leaves 2 third three-parsed refl

abbrev text_of : Option String → String
text_of none = ""
text_of (some s) = s

abbrev texts_of : Option (List String) → List String
texts_of none = []
texts_of (some s) = s

abbrev top : String
top = text_of (merkle_root toy three)

abbrev second_proof : List String
second_proof = texts_of (inclusion_proof toy three 1)

three-rooted : merkle_root toy three ≡ some top
unfolding merkle_root raw_leaves
three-rooted = refl

second-verified : verify_inclusion toy second 1 3 second_proof top ≡ some true
unfolding verify_inclusion merkle_root inclusion_proof raw_leaves root path climb round halve leaf
    node split fromhex hex
second-verified = refl

verify_inclusion_sound_example :
    (own : List String) × (inclusion_proof toy three 1 ≡ some own)
    × ((fromhex second ≡ fromhex second)
        ⊎ Collides toy
            (inclusion_texts toy second 1 3 second_proof)
            (inclusion_texts toy second 1 3 own))
verify_inclusion_sound_example =
    verify_inclusion_sound toy toy-IsDigest three three_leaves 1 second second top second_proof
      three-parsed refl three-rooted second-verified

merkle_root_pins_example :
    (three_leaves ≡ three_leaves)
    ⊎ Collides toy (root_texts toy 3 three_leaves) (root_texts toy 3 three_leaves)
merkle_root_pins_example =
    merkle_root_pins toy toy-IsDigest three three three_leaves three_leaves top three-parsed
      three-parsed refl three-rooted three-rooted

-- a platform whose texts are in NFC already
abbrev pub plain : Platform
plain = record { nfc = λ s. s; repr = λ d. "1.0"; float_of = λ n. none }

a-not-b : ◌≢◌ {A = String} "a" "b"
a-not-b = ground (arith, eq_iff "a" "b")

canonicalize_reordered_example :
    canonicalize plain (obj (field "a" null (field "b" (str "x") end)))
    ≡ canonicalize plain (obj (field "b" (str "x") (field "a" null end)))
canonicalize_reordered_example =
    canonicalize_reordered plain (field "a" null (field "b" (str "x") end))
      (field "b" (str "x") (field "a" null end)) (swap "a" "b" null (str "x") end a-not-b)
