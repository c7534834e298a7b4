-- ===== src/TreeKem/Maps.antt =====
-- The maps of backend/static/js/lib/treekem.js: lookups after changes.
use cryptis_dchat_project.Prelude.{ℕ, ◌≡◌, ◌≢◌, refl, false, none, some, List, [], ◌∷◌, arith}
use cryptis_dchat_project.TreeKem.{Map, Bytes, lookup, delete, insert, delete_all, is_in}

pub lookup-delete : (k : ℕ) (m : Map) → lookup k (delete k m) ≡ none
unfolding lookup delete
lookup-delete k [] = refl
lookup-delete k ((j, v) ∷ m) = ground (arith, lookup-delete k m)

pub lookup-delete_other : (k j : ℕ) (m : Map) → k ≢ j → lookup k (delete j m) ≡ lookup k m
unfolding lookup delete
lookup-delete_other k j [] ne = refl
lookup-delete_other k j ((i, v) ∷ m) ne = ground (arith, ne, lookup-delete_other k j m ne)

pub lookup-insert : (k : ℕ) (v : Bytes) (m : Map) → lookup k (insert k v m) ≡ some v
unfolding lookup insert
lookup-insert k v m = ground arith

pub lookup-insert_other :
    (k j : ℕ) (v : Bytes) (m : Map) → k ≢ j → lookup k (insert j v m) ≡ lookup k m
unfolding lookup insert
lookup-insert_other k j v m ne = ground (arith, ne, lookup-delete_other k j m ne)

pub lookup-delete_all :
    (k : ℕ) (ks : List ℕ) (m : Map) → is_in k ks ≡ false → lookup k (delete_all ks m) ≡ lookup k m
unfolding delete_all is_in
lookup-delete_all k [] m h = refl
lookup-delete_all k (j ∷ ks) m h =
    ground (arith, lookup-delete_all k ks (delete j m), lookup-delete_other k j m)
