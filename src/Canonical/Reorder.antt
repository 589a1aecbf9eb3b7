-- ===== src/Canonical/Reorder.antt =====
-- The canonical bytes of an object do not depend on the order of its members.
use ski_framework.Prelude.{
  ℕ, ◌≡◌, ◌≢◌, refl, sym, ap, ◌∙◌, inl, inr, true, false, Option, none, some, List, [], ◌∷◌, String,
  ◌>>=◌, Bool-cases,
}
use ski_framework.Value.{Value, Fields, obj, field}
use ski_framework.Canonical.{
  Platform, Member, insert, sort, object_chunks, serialize, serialize_members, nfc_normalize_values,
  nfc_normalize_members, jcs_canonicalize, canonicalize,
}
use ski_framework.Canonical.Text.{utf16, less, utf8, concat}
use ski_framework.Canonical.Order.{less-asym, less_trans, less-total, utf16-injective}

-- Two dicts with the same entries in another order.
pub data IsReordering : Fields → Fields → Type 0 where
  same : (d : Fields) → IsReordering d d
  swap :
      (k j : String) (v w : Value) (d : Fields)
      → k ≢ j
      → IsReordering (field k v (field j w d)) (field j w (field k v d))
  under :
      (k : String) (v : Value) (d e : Fields)
      → IsReordering d e
      → IsReordering (field k v d) (field k v e)
  after : (d e f : Fields) → IsReordering d e → IsReordering e f → IsReordering d f

abbrev key : Member → List ℕ
key m = utf16 m.0

insert-after :
    (m x : Member) (ms : List Member)
    → less (key x) (key m) ≡ true
    → insert m (x ∷ ms) ≡ x ∷ insert m ms
unfolding insert
insert-after m x ms h = rw (insert, h) refl

insert-here :
    (m x : Member) (ms : List Member)
    → less (key x) (key m) ≡ false
    → insert m (x ∷ ms) ≡ m ∷ x ∷ ms
unfolding insert
insert-here m x ms h = rw (insert, h) refl

-- a member inserted after a smaller one comes to stand behind it
insert_comm_less :
    (a b : Member) (ms : List Member)
    → less (key a) (key b) ≡ true
    → insert a (insert b ms) ≡ insert b (insert a ms)
unfolding insert
insert_comm_less a b [] h =
    let back = less-asym (key a) (key b) h in insert-here a b [] back ∙ sym (insert-after b a [] h)
insert_comm_less a b (x ∷ ms) h =
    let back = less-asym (key a) (key b) h in
    elim (Bool-cases (less (key x) (key a))) [
      | inl xa ↦
          let xb = less_trans (key x) (key a) (key b) xa h in
          ap (insert a) (insert-after b x ms xb)
          ∙ insert-after a x (insert b ms) xa
          ∙ ap (λ rest. x ∷ rest) (insert_comm_less a b ms h)
          ∙ sym (ap (insert b) (insert-after a x ms xa) ∙ insert-after b x (insert a ms) xb)
      | inr nxa ↦ elim (Bool-cases (less (key x) (key b))) [
        | inl xb ↦
            ap (insert a) (insert-after b x ms xb)
            ∙ insert-here a x (insert b ms) nxa
            ∙ sym (
                ap (insert b) (insert-here a x ms nxa)
                ∙ insert-after b a (x ∷ ms) h
                ∙ ap (λ rest. a ∷ rest) (insert-after b x ms xb))
        | inr nxb ↦
            ap (insert a) (insert-here b x ms nxb)
            ∙ insert-here a b (x ∷ ms) back
            ∙ sym (
                ap (insert b) (insert-here a x ms nxa)
                ∙ insert-after b a (x ∷ ms) h
                ∙ ap (λ rest. a ∷ rest) (insert-here b x ms nxb))
      ]
    ]

insert_comm :
    (a b : Member) (ms : List Member) → a.0 ≢ b.0 → insert a (insert b ms) ≡ insert b (insert a ms)
insert_comm a b ms ne = elim (less-total (key a) (key b)) [
  | inl e ↦ absurd (ne (utf16-injective a.0 b.0 e))
  | inr (inl l) ↦ insert_comm_less a b ms l
  | inr (inr g) ↦ sym (insert_comm_less b a ms g)
]

module _ (py : Platform) where
  -- the members of an object in their order
  abbrev sorted : Fields → Option (List Member)
  sorted d = serialize_members py d >>= λ ms. some (sort ms)

  -- the members of a dict with one more entry, of those in order
  abbrev with_member : String → Option (List String) → Option (List Member) → Option (List Member)
  with_member k s ms = s >>= λ chunks. ms >>= λ rest. some (insert (k, chunks) rest)

  sorted-field :
      (k : String) (v : Value) (d : Fields)
      → sorted (field k v d) ≡ with_member k (serialize py v) (sorted d)
  unfolding serialize sort
  sorted-field k v d = step k (serialize py v) (serialize_members py d)
    where
      step :
          (k : String) (s : Option (List String)) (m : Option (List Member))
          → ((s >>= λ c. m >>= λ ms. some ((k, c) ∷ ms)) >>= λ ms. some (sort ms))
            ≡ with_member k s (m >>= λ ms. some (sort ms))
      step k none m = refl
      step k (some c) none = refl
      step k (some c) (some ms) = refl

  with_member_comm :
      (k j : String) (s t : Option (List String)) (ms : Option (List Member))
      → k ≢ j
      → with_member k s (with_member j t ms) ≡ with_member j t (with_member k s ms)
  with_member_comm k j none none ms ne = refl
  with_member_comm k j none (some t) none ne = refl
  with_member_comm k j none (some t) (some ms) ne = refl
  with_member_comm k j (some s) none none ne = refl
  with_member_comm k j (some s) none (some ms) ne = refl
  with_member_comm k j (some s) (some t) none ne = refl
  with_member_comm k j (some s) (some t) (some ms) ne = ap some (insert_comm (k, s) (j, t) ms ne)

  sorted-reordered : (d e : Fields) → IsReordering d e → sorted d ≡ sorted e
  sorted-reordered d _ (same _) = refl
  sorted-reordered _ _ (swap k j v w d ne) =
      sorted-field k v (field j w d)
      ∙ ap (with_member k (serialize py v)) (sorted-field j w d)
      ∙ with_member_comm k j (serialize py v) (serialize py w) (sorted d) ne
      ∙ sym (
          sorted-field j w (field k v d) ∙ ap (with_member j (serialize py w)) (sorted-field k v d))
  sorted-reordered _ _ (under k v d e r) =
      sorted-field k v d
      ∙ ap (with_member k (serialize py v)) (sorted-reordered d e r)
      ∙ sym (sorted-field k v e)
  sorted-reordered d f (after _ e _ r q) = sorted-reordered d e r ∙ sorted-reordered e f q

  serialize-sorted :
      (d : Fields) → serialize py (obj d) ≡ (sorted d >>= λ ms. some (object_chunks ms))
  unfolding serialize
  serialize-sorted d = step (serialize_members py d)
    where
      step :
          (m : Option (List Member))
          → (m >>= λ ms. some (object_chunks (sort ms)))
            ≡ ((m >>= λ ms. some (sort ms)) >>= λ ms. some (object_chunks ms))
      step none = refl
      step (some ms) = refl

  nfc-IsReordering :
      (d e : Fields)
      → IsReordering d e
      → IsReordering (nfc_normalize_members py d) (nfc_normalize_members py e)
  unfolding nfc_normalize_values
  nfc-IsReordering d _ (same _) = same (nfc_normalize_members py d)
  nfc-IsReordering _ _ (swap k j v w d ne) =
      swap k j (nfc_normalize_values py v) (nfc_normalize_values py w) (nfc_normalize_members py d)
        ne
  nfc-IsReordering _ _ (under k v d e r) =
      under k (nfc_normalize_values py v) _ _ (nfc-IsReordering d e r)
  nfc-IsReordering d f (after _ e _ r q) =
      after _ _ _ (nfc-IsReordering d e r) (nfc-IsReordering e f q)

  -- The canonical bytes of an object are those of the object with the same members in another
  -- order, where the names of members that change places differ.
  pub canonicalize_reordered :
      (d e : Fields) → IsReordering d e → canonicalize py (obj d) ≡ canonicalize py (obj e)
  unfolding canonicalize jcs_canonicalize nfc_normalize_values
  canonicalize_reordered d e r =
      let n = nfc-IsReordering d e r in
      let chunks : serialize py (obj (nfc_normalize_members py d))
          ≡ serialize py (obj (nfc_normalize_members py e)) =
        serialize-sorted (nfc_normalize_members py d)
        ∙ ap (λ o. o >>= λ ms. some (object_chunks ms)) (sorted-reordered _ _ n)
        ∙ sym (serialize-sorted (nfc_normalize_members py e)) in
      ap (λ o. o >>= λ out. some (utf8 (concat out))) chunks
