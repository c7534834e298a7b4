-- ===== src/Crypto/Merkle/Binding.antt =====
-- What a proof that `merkleVerify` of backend/static/js/lib/crypto.js takes shows of the tree of its root.
use cryptis_dchat_project.Prelude.{
  ℕ, ◌≡◌, ◌≢◌, refl, sym, ap, ◌∙◌, if◌then◌else◌, Bool, true, false, Bool-cases, ◌⊎◌, inl, inr,
  List, [], ◌∷◌, ◌++◌, length, length-append, take, drop, take-length_append, drop-length_append,
  arith,
}
use cryptis_dchat_project.Crypto.Merkle.{
  Bytes, hex, unhex, ProofStep, climb_step, climb, merkle_verify, text_eq,
}
use cryptis_dchat_project.Crypto.Merkle.Hex.{AreBytes, hex-injective, text_eq-same}
use cryptis_dchat_project.Crypto.Merkle.Events.{
  Tree, leaf, node, root_of, root_of-AreBytes, climb-AreBytes, step_input, IsLeaf, IsIn, climbed,
  checked, hashed, Collision,
}

tail : Bytes → Bytes
tail [] = []
tail (x ∷ xs) = xs

cons-cancel : (x : ℕ) (xs ys : Bytes) → x ∷ xs ≡ x ∷ ys → xs ≡ ys
unfolding tail
cons-cancel x xs ys e = ap tail e

IsIn-left : (x : Bytes) (xs ys : List Bytes) → IsIn x xs → IsIn x (xs ++ ys)
IsIn-left x [] ys h = absurd h
IsIn-left x (z ∷ xs) ys (inl e) = inl e
IsIn-left x (z ∷ xs) ys (inr h) = inr (IsIn-left x xs ys h)

IsIn-right : (x : Bytes) (xs ys : List Bytes) → IsIn x ys → IsIn x (xs ++ ys)
IsIn-right x [] ys h = h
IsIn-right x (z ∷ xs) ys h = inr (IsIn-right x xs ys h)

head_or : Bytes → ℕ
head_or [] = 2
head_or (x ∷ xs) = x

tags_differ : (xs ys : Bytes) → 1 ∷ xs ≢ 0 ∷ ys
unfolding head_or
tags_differ xs ys e = absurd (omega (arith, ap head_or e))

front-cancel : (a b x y : Bytes) → length a ≡ length b → a ++ x ≡ b ++ y → a ≡ b
front-cancel a b x y len e =
    sym (take-length_append a x)
    ∙ ap (take (length a)) e
    ∙ ap (λ n. take n (b ++ y)) len
    ∙ take-length_append b y

back-cancel : (a b x y : Bytes) → length x ≡ length y → a ++ x ≡ b ++ y → x ≡ y
back-cancel a b x y len e =
    let same : length a ≡ length b =
      omega (arith, ap length e, len, length-append a x, length-append b y) in
    sym (drop-length_append a x)
    ∙ ap (drop (length a)) e
    ∙ ap (λ n. drop n (b ++ y)) same
    ∙ drop-length_append b y

module _ (sha256 : Bytes → Bytes) (sized : (b : Bytes) → length (sha256 b) ≡ 32) where
  same_or_other : (x y : Bytes) → (x ≡ y) ⊎ (text_eq x y ≡ false)
  same_or_other x y = elim (Bool-cases (text_eq x y)) [
    | inl same ↦ inl (text_eq-same x y same)
    | inr other ↦ inr other
  ]

  -- A part of a tree: its events are the tree's, and so is what it hashes.
  abbrev PartOf : Tree → Tree → Type 0
  PartOf u t =
      ((e : Bytes) → IsLeaf e u → IsLeaf e t)
      × ((x : Bytes) → IsIn x (hashed sha256 u) → IsIn x (hashed sha256 t))

  root_of-sized : (t : Tree) → length (root_of sha256 t) ≡ 32
  unfolding root_of
  root_of-sized (leaf e) = sized _
  root_of-sized (node l r) = sized _

  left_part : (l r t : Tree) → PartOf (node l r) t → PartOf l t
  unfolding hashed
  left_part l r t (leaves, hashes) = (
    λ e h. leaves e (inl h),
    λ x h. hashes x (inr (IsIn-left x (hashed sha256 l) (hashed sha256 r) h)),
  )

  right_part : (l r t : Tree) → PartOf (node l r) t → PartOf r t
  unfolding hashed
  right_part l r t (leaves, hashes) = (
    λ e h. leaves e (inr h),
    λ x h. hashes x (inr (IsIn-right x (hashed sha256 l) (hashed sha256 r) h)),
  )

  -- A step that ends at the root of a part starts at the root of one, or shows a collision.
  step_down :
      (t u : Tree) (s : ProofStep) (acc : Bytes)
      → length acc ≡ 32
      → PartOf u t
      → climb_step sha256 s acc ≡ root_of sha256 u
      → ((v : Tree) × PartOf v t × (acc ≡ root_of sha256 v))
        ⊎ Collision sha256 (step_input s acc ∷ []) (hashed sha256 t)
  unfolding root_of hashed
  step_down t (leaf e) s acc len part same =
      inr (_, 0 ∷ e, inl refl, part.1 (0 ∷ e) (inl refl), tagged s.left, same)
    where
      tagged :
          (left : Bool)
          → text_eq (if left then 1 ∷ unhex s.hash ++ acc else 1 ∷ acc ++ unhex s.hash) (0 ∷ e)
            ≡ false
      tagged true = refl
      tagged false = refl
  step_down t (node l r) s acc len part same = elim (same_or_other _ _) [
    | inr other ↦ inr (_, _, inl refl, part.1 _ (inl refl), other, same)
    | inl inputs ↦ inl (side s.left inputs)
  ]
    where
      side :
          (left : Bool)
          → (if left then 1 ∷ unhex s.hash ++ acc else 1 ∷ acc ++ unhex s.hash)
            ≡ 1 ∷ root_of sha256 l ++ root_of sha256 r
          → (v : Tree) × PartOf v t × (acc ≡ root_of sha256 v)
      side true q = (
        r,
        right_part l r t part,
        back-cancel (unhex s.hash) (root_of sha256 l) acc (root_of sha256 r)
            (len ∙ sym (root_of-sized r)) (cons-cancel 1 _ _ q),
      )
      side false q = (
        l,
        left_part l r t part,
        front-cancel acc (root_of sha256 l) (unhex s.hash) (root_of sha256 r)
            (len ∙ sym (root_of-sized l)) (cons-cancel 1 _ _ q),
      )

  found_first :
      (y : Bytes) (ys hashes : List Bytes)
      → Collision sha256 (y ∷ []) hashes
      → Collision sha256 (y ∷ ys) hashes
  found_first y ys hashes (x, z, inl e, hz, other, same) = (x, z, inl e, hz, other, same)
  found_first y ys hashes (x, z, inr h, hz, other, same) = absurd h

  found_later :
      (y : Bytes) (ys hashes : List Bytes)
      → Collision sha256 ys hashes
      → Collision sha256 (y ∷ ys) hashes
  found_later y ys hashes (x, z, hx, hz, other, same) = (x, z, inr hx, hz, other, same)

  -- A climb that ends at the root of a tree starts at the root of a part, or shows a collision.
  climb_down :
      (t : Tree) (acc : Bytes) (proof : List ProofStep)
      → length acc ≡ 32
      → climb sha256 acc proof ≡ root_of sha256 t
      → ((v : Tree) × PartOf v t × (acc ≡ root_of sha256 v))
        ⊎ Collision sha256 (climbed sha256 acc proof) (hashed sha256 t)
  unfolding climb climbed
  climb_down t acc [] len ends = inl (t, ((λ e h. h), λ x h. h), ends)
  climb_down t acc (s ∷ proof) len ends =
      elim (climb_down t (climb_step sha256 s acc) proof (sized _) ends) [
        | inr found ↦ inr (
            found_later (step_input s acc) (climbed sha256 (climb_step sha256 s acc) proof) _ found)
        | inl (u, part, at) ↦ elim (step_down t u s acc len part at) [
          | inl below ↦ inl below
          | inr found ↦ inr (
              found_first (step_input s acc) (climbed sha256 (climb_step sha256 s acc) proof) _
                found)
        ]
      ]

  -- The start of a check at the root of a part is an event of it, or shows a collision.
  start_down :
      (t u : Tree) (e : List ℕ)
      → PartOf u t
      → sha256 (0 ∷ unhex e) ≡ root_of sha256 u
      → IsLeaf (unhex e) t ⊎ Collision sha256 ((0 ∷ unhex e) ∷ []) (hashed sha256 t)
  unfolding root_of hashed
  start_down t (leaf f) e part same = elim (same_or_other _ _) [
    | inl inputs ↦ inl (part.0 (unhex e) (cons-cancel 0 _ _ inputs))
    | inr other ↦ inr (_, _, inl refl, part.1 _ (inl refl), other, same)
  ]
  start_down t (node l r) e part same = inr (_, _, inl refl, part.1 _ (inl refl), refl, same)

  -- Where a proof of an event is taken for the root of a tree of events, the event is one of the tree,
  -- or the check of the proof and the tree hash two different byte strings, one each, to the same
  -- digest; for a digest of 32 bytes.
  pub merkle_verify-IsLeaf :
      (t : Tree) (e : List ℕ) (proof : List ProofStep)
      → ((b : Bytes) → AreBytes (sha256 b))
      → merkle_verify sha256 e proof (hex (root_of sha256 t)) ≡ true
      → IsLeaf (unhex e) t ⊎ Collision sha256 (checked sha256 e proof) (hashed sha256 t)
  unfolding merkle_verify checked
  merkle_verify-IsLeaf t e proof digest h =
      let start = sha256 (0 ∷ unhex e) in
      let ends =
        hex-injective _ _ (climb-AreBytes sha256 digest start proof (digest _))
          (root_of-AreBytes sha256 digest t) (text_eq-same _ _ h) in
      elim (climb_down t start proof (sized _) ends) [
        | inr found ↦ inr (found_later (0 ∷ unhex e) (climbed sha256 start proof) _ found)
        | inl (u, part, at) ↦ elim (start_down t u e part at) [
          | inl is_event ↦ inl is_event
          | inr found ↦ inr (found_first (0 ∷ unhex e) (climbed sha256 start proof) _ found)
        ]
      ]
