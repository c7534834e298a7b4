-- ===== src/Wire/Objects.antt =====
-- The objects that `decode` of backend/static/js/lib/proto.js fills: their properties, by name.
use cryptis_dchat_project.Prelude.{
  ◌≡◌, refl, sym, ap, ◌∙◌, Bool, true, not, ◌&&◌, some, List, [], ◌∷◌, ◌++◌, arith, append_assoc,
  append-nil, String, str_eq, eq_refl,
}
use cryptis_dchat_project.Wire.Types.{Text, Field, Value, text, texts, Obj, nil, prop, get, put}
use cryptis_dchat_project.Wire.Codec.{store_value}

unfoldable pub join : Obj → Obj → Obj
join nil r = r
join (prop k v o) r = prop k v (join o r)

unfoldable pub keys : Obj → List String
keys nil = []
keys (prop k v o) = k ∷ keys o

abbrev pub absent : String → List String → Bool
absent k [] = true
absent k (j ∷ js) = not (str_eq j k) && absent k js

pub keys-join : (o : Obj) (k : String) (v : Value) → keys (join o (prop k v nil)) ≡ keys o ++ k ∷ []
unfolding keys join
keys-join nil k v = refl
keys-join (prop j w o) k v = ap (λ r. j ∷ r) (keys-join o k v)

pub join_assoc :
    (o : Obj) (k : String) (v : Value) (r : Obj)
    → join o (prop k v r) ≡ join (join o (prop k v nil)) r
unfolding join
join_assoc nil k v r = refl
join_assoc (prop j w o) k v r = ap (prop j w) (join_assoc o k v r)

pub get-join :
    (o : Obj) (k : String) (v : Value) (r : Obj)
    → absent k (keys o) ≡ true
    → get (join o (prop k v r)) k ≡ some v
unfolding join get keys
get-join nil k v r h = rw (eq_refl k)
get-join (prop j w o) k v r h = ground (arith, get-join o k v r)

pub put-join :
    (o : Obj) (k : String) (v w : Value) (r : Obj)
    → absent k (keys o) ≡ true
    → put (join o (prop k v r)) k w ≡ join o (prop k w r)
unfolding join put keys
put-join nil k v w r h = rw (eq_refl k)
put-join (prop j u o) k v w r h = ground (arith, put-join o k v w r)

-- One text after the other is pushed onto the property of a repeated field.
unfoldable pub push_texts : Field → List Text → Obj → Obj
push_texts f [] o = o
push_texts f (t ∷ ts) o = push_texts f ts (store_value f (text t) o)

pub push_texts-join :
    (f : Field) (before ts : List Text) (o r : Obj)
    → f.repeated ≡ true
    → absent f.name (keys o) ≡ true
    → push_texts f ts (join o (prop f.name (texts before) r))
      ≡ join o (prop f.name (texts (before ++ ts)) r)
unfolding push_texts
push_texts-join f before [] o r rep h =
    ap (λ l. join o (prop f.name (texts l) r)) (sym (append-nil before))
push_texts-join f before (t ∷ ts) o r rep h =
    ap (push_texts f ts) stored
    ∙ push_texts-join f (before ++ t ∷ []) ts o r rep h
    ∙ ap (λ l. join o (prop f.name (texts l) r)) (append_assoc before (t ∷ []) ts)
  where
    stored :
        store_value f (text t) (join o (prop f.name (texts before) r))
        ≡ join o (prop f.name (texts (before ++ t ∷ [])) r)
    stored =
        unfold store_value in
        rw rep (
          rw (get-join o f.name (texts before) r h)
            (put-join o f.name (texts before) (texts (before ++ t ∷ [])) r h))
