-- ===== src/Crypto/Shamir/RoundTrip.antt =====
-- `shamirCombine` of two shares of `shamirSplit`, backend/static/js/lib/crypto.js.
use mathlib.Core.Option
use cryptis_dchat_project.Prelude.{
  ℕ, zero, suc, ◌+◌, ◌-◌, ◌%◌, ◌≤◌, ◌<◌, ◌≡◌, ◌≢◌, refl, sym, ap, ◌∙◌, bit_xor, Option, none, some,
  List, [], ◌∷◌, ◌++◌, map, append_assoc, append-nil, arith, length, get_or, get_elem?, All,
}
use cryptis_dchat_project.Prelude.Xor.{zero-bit_xor, bit_xor_comm}
use cryptis_dchat_project.Crypto.Gf.{gf_mul}
use cryptis_dchat_project.Crypto.Gf.Linear.{bit_xor-byte, gf_mul-byte}
use cryptis_dchat_project.Crypto.Gf.Field.{one-gf_mul, gf_inv_total}
use cryptis_dchat_project.Crypto.Shamir.{
  eval_share, first_shares, push_all, split_bytes, shamir_split, combine_at, combine_from,
  shamir_combine,
}
use cryptis_dchat_project.Crypto.Shamir.Recover.{line, eval_share-line, ne-bit_xor_pos, interpolate}

-- The value at one position of two shares at `x` and `y`.
pub combine_at_two :
    (x y pos : ℕ) (s t : List ℕ) (secret : ℕ)
    → x < 256
    → y < 256
    → x ≢ y
    → (slope : ℕ) → secret < 256
    → slope < 256
    → get_or s pos 0 ≡ line secret slope x
    → get_or t pos 0 ≡ line secret slope y
    → combine_at (x ∷ y ∷ []) pos 0 (s ∷ t ∷ []) 0 ≡ some secret
unfolding combine_at
combine_at_two x y pos s t secret hx hy ne slope hs hc es et =
    let (i, found, hi, inverse) =
      gf_inv_total (bit_xor x y) (ne-bit_xor_pos x y ne) (bit_xor-byte x y hx hy) in
    rw (es, et)
      (rw
        (
          one-gf_mul y hy,
          one-gf_mul x hx,
          one-gf_mul (bit_xor x y) (bit_xor-byte x y hx hy),
          one-gf_mul (bit_xor y x) (bit_xor-byte y x hy hx),
          bit_xor_comm y x,
        )
        (rw (found, zero-bit_xor)
          (ap some (interpolate secret slope x y i hs hc hx hy hi inverse))))

-- `random(1)` draws one byte.
abbrev pub DrawsByte : (ℕ → List ℕ) → Type 0
DrawsByte random = (pos : ℕ) → (c : ℕ) × (c < 256) × (random pos ≡ c ∷ [])

-- The values of the share at `x`, a byte of the secret at a time.
share_bytes : (ℕ → List ℕ) → ℕ → ℕ → List ℕ → List ℕ
share_bytes random x pos [] = []
share_bytes random x pos (byte ∷ secret) =
    eval_share 0 1 x (byte ∷ random pos) ∷ share_bytes random x (pos + 1) secret

get_elem?-push_all :
    (k : ℕ) (coeffs : List ℕ) (shares : List (List ℕ)) (i : ℕ)
    → get_elem? (push_all k coeffs shares) i
      ≡ Option.map (λ s. s ++ eval_share 0 1 (k + i + 1) coeffs ∷ []) (get_elem? shares i)
unfolding push_all
get_elem?-push_all k coeffs [] i = refl
get_elem?-push_all k coeffs (s ∷ shares) zero = let e : k + 0 + 1 ≡ k + 1 = omega arith in rw e
get_elem?-push_all k coeffs (s ∷ shares) (suc i) =
    let e : k + suc i + 1 ≡ k + 1 + i + 1 = omega arith in
    rw e (get_elem?-push_all (k + 1) coeffs shares i)

append_after :
    (o : Option (List ℕ)) (v : ℕ) (vs : List ℕ)
    → Option.map (λ s. s ++ vs) (Option.map (λ s. s ++ v ∷ []) o) ≡ Option.map (λ s. s ++ v ∷ vs) o
append_after none v vs = refl
append_after (some s) v vs = ap some (append_assoc s (v ∷ []) vs)

append_nothing : (o : Option (List ℕ)) → o ≡ Option.map (λ s. s ++ []) o
append_nothing none = refl
append_nothing (some s) = ap some (sym (append-nil s))

get_elem?-split_bytes :
    (random : ℕ → List ℕ) (pos : ℕ) (secret : List ℕ) (shares : List (List ℕ)) (i : ℕ)
    → get_elem? (split_bytes random pos secret shares) i
      ≡ Option.map (λ s. s ++ share_bytes random (i + 1) pos secret) (get_elem? shares i)
unfolding split_bytes share_bytes
get_elem?-split_bytes random pos [] shares i = append_nothing (get_elem? shares i)
get_elem?-split_bytes random pos (byte ∷ secret) shares i =
    get_elem?-split_bytes random (pos + 1) secret (push_all 0 (byte ∷ random pos) shares) i
    ∙ ap (Option.map (λ s. s ++ share_bytes random (i + 1) (pos + 1) secret))
        (get_elem?-push_all 0 (byte ∷ random pos) shares i)
    ∙ append_after (get_elem? shares i) (eval_share 0 1 (0 + i + 1) (byte ∷ random pos)) _
    ∙ ap
        (λ x.
          Option.map
            (λ s.
              s
              ++ eval_share 0 1 x (byte ∷ random pos) ∷ share_bytes random (i + 1) (pos + 1) secret)
            (get_elem? shares i))
        index
  where
    index : 0 + i + 1 ≡ i + 1
    index = omega arith

get_elem?-first_shares :
    (n k i : ℕ) → i < n → get_elem? (first_shares n k) i ≡ some ((k + i + 1) ∷ [])
unfolding first_shares
get_elem?-first_shares zero k i h = absurd (omega arith)
get_elem?-first_shares (suc n) k zero h = let e : k + 0 + 1 ≡ k + 1 = omega arith in rw e
get_elem?-first_shares (suc n) k (suc i) h =
    let e : k + suc i + 1 ≡ k + 1 + i + 1 = omega arith in
    rw e (get_elem?-first_shares n (k + 1) i (omega arith))

get_elem?-map :
    {A B : Type 0} (f : A → B) (xs : List A) (i : ℕ)
    → get_elem? (map f xs) i ≡ Option.map f (get_elem? xs i)
get_elem?-map f [] i = refl
get_elem?-map f (x ∷ xs) zero = refl
get_elem?-map f (x ∷ xs) (suc i) = get_elem?-map f xs i

low_bytes : (xs : List ℕ) → All (λ v. v < 256) xs → map (λ v. v % 256) xs ≡ xs
low_bytes [] h = refl
low_bytes (x ∷ xs) (hx, h) =
    let e : x % 256 ≡ x = omega arith in rw e (ap (λ r. x ∷ r) (low_bytes xs h))

module _ (random : ℕ → List ℕ) (draws : DrawsByte random) where
  share_bytes-at :
      (x pos byte : ℕ)
      → byte < 256
      → x < 256
      → eval_share 0 1 x (byte ∷ random pos) ≡ line byte (draws pos).0 x
  share_bytes-at x pos byte hb hx =
      let (c, hc, e) = draws pos in rw e (eval_share-line byte c x hb hc hx)

  share_bytes-byte :
      (x pos : ℕ) (secret : List ℕ)
      → x < 256
      → All (λ v. v < 256) secret
      → All (λ v. v < 256) (share_bytes random x pos secret)
  unfolding share_bytes
  share_bytes-byte x pos [] hx h = tt
  share_bytes-byte x pos (byte ∷ secret) hx (hb, h) = (
    rw (share_bytes-at x pos byte hb hx) (
        bit_xor-byte byte (gf_mul (draws pos).0 x) hb
          (gf_mul-byte (draws pos).0 x (draws pos).1 hx)),
    share_bytes-byte x (pos + 1) secret hx h,
  )

  -- A share is its index, counted from 1, and its values.
  get_elem?-shamir_split :
      (secret : List ℕ) (n i : ℕ)
      → All (λ v. v < 256) secret
      → n ≤ 255
      → i < n
      → get_elem? (shamir_split random secret n) i
        ≡ some ((i + 1) ∷ share_bytes random (i + 1) 0 secret)
  unfolding shamir_split
  get_elem?-shamir_split secret n i h hn hi =
      get_elem?-map _ (split_bytes random 0 secret (first_shares n 0)) i
      ∙ ap (Option.map (map (λ v. v % 256))) (
          get_elem?-split_bytes random 0 secret (first_shares n 0) i
          ∙ ap (Option.map (λ s. s ++ share_bytes random (i + 1) 0 secret))
              (get_elem?-first_shares n 0 i hi))
      ∙ ap some (
          low_bytes _ (omega arith, share_bytes-byte (i + 1) 0 secret (omega arith) h)
          ∙ ap (λ x. x ∷ share_bytes random (i + 1) 0 secret) index)
    where
      index : 0 + i + 1 ≡ i + 1
      index = omega arith

  combine_from_two :
      (x y : ℕ) (s t : List ℕ) (secret : List ℕ) (pos rpos : ℕ)
      → x < 256
      → y < 256
      → x ≢ y
      → All (λ v. v < 256) secret
      → ((r p : ℕ) → p ≡ pos + r → get_or s p 0 ≡ get_or (share_bytes random x rpos secret) r 0)
      → ((r p : ℕ) → p ≡ pos + r → get_or t p 0 ≡ get_or (share_bytes random y rpos secret) r 0)
      → combine_from (length secret) pos (x ∷ y ∷ []) (s ∷ t ∷ []) ≡ some secret
  unfolding combine_from share_bytes
  combine_from_two x y s t [] pos rpos hx hy ne h es et = refl
  combine_from_two x y s t (byte ∷ secret) pos rpos hx hy ne (hb, h) es et = rw (
    combine_at_two x y pos s t byte hx hy ne (draws rpos).0 hb (draws rpos).1
        (es 0 pos (omega arith) ∙ share_bytes-at x rpos byte hb hx)
        (et 0 pos (omega arith) ∙ share_bytes-at y rpos byte hb hy),
    combine_from_two x y s t secret (pos + 1) (rpos + 1) hx hy ne h
        (λ r p e. es (suc r) p (omega arith)) (λ r p e. et (suc r) p (omega arith)),
  )

  length-share_bytes :
      (x pos : ℕ) (secret : List ℕ) → length (share_bytes random x pos secret) ≡ length secret
  unfolding share_bytes
  length-share_bytes x pos [] = refl
  length-share_bytes x pos (byte ∷ secret) = ap suc (length-share_bytes x (pos + 1) secret)

  after_index : (x : ℕ) (ys : List ℕ) (r p : ℕ) → p ≡ 1 + r → get_or (x ∷ ys) p 0 ≡ get_or ys r 0
  after_index x ys r zero e = absurd (omega arith)
  after_index x ys r (suc p) e = ap (λ k. get_or ys k 0) (omega arith)

  combine_two :
      (secret : List ℕ) (x y : ℕ)
      → x < 256
      → y < 256
      → x ≢ y
      → All (λ v. v < 256) secret
      → shamir_combine
          ((x ∷ share_bytes random x 0 secret) ∷ (y ∷ share_bytes random y 0 secret) ∷ [])
        ≡ some secret
  unfolding shamir_combine
  combine_two secret x y hx hy ne h =
      let left : suc (length (share_bytes random x 0 secret)) - 1 ≡ length secret =
        omega (arith, length-share_bytes x 0 secret) in
      rw left (
        combine_from_two x y (x ∷ share_bytes random x 0 secret) (y ∷ share_bytes random y 0 secret)
          secret 1 0 hx hy ne h (after_index x (share_bytes random x 0 secret))
          (after_index y (share_bytes random y 0 secret)))

  -- Any two different shares of a secret of bytes, in either order, give the secret back: sharing is by
  -- `shamir_split` with at most 255 shares and a threshold of 2, where `random` draws one byte for each
  -- byte of the secret.
  pub shamir_combine-shamir_split :
      (secret : List ℕ) (n i j : ℕ) (s t : List ℕ)
      → All (λ v. v < 256) secret
      → n ≤ 255
      → i < n
      → j < n
      → i ≢ j
      → get_elem? (shamir_split random secret n) i ≡ some s
      → get_elem? (shamir_split random secret n) j ≡ some t
      → shamir_combine (s ∷ t ∷ []) ≡ some secret
  shamir_combine-shamir_split secret n i j s t h hn hi hj ne es et =
      let first =
        Option.some-injective _ _ (sym (get_elem?-shamir_split secret n i h hn hi) ∙ es) in
      let second =
        Option.some-injective _ _ (sym (get_elem?-shamir_split secret n j h hn hj) ∙ et) in
      rw (← first, ← second)
        (combine_two secret (i + 1) (j + 1) (omega arith) (omega arith) (λ e. ne (omega arith)) h)
