-- ===== src/Login/Proof.antt =====
-- The message that a wallet signs for the server: `devLogin` of backend/static/js/login.js. Texts are their bytes
-- of UTF-8, and times are in seconds, below 2 ^ 32 as the code's `setUint32` writes them.
use cryptis_dchat_project.Prelude.{
  ℕ, ◌/◌, ◌%◌, ◌<◌, ◌≡◌, refl, sym, ap, ◌∙◌, [], ◌∷◌, ◌++◌, length, arith, drop, take,
  length-append,
}
use cryptis_dchat_project.Crypto.Signing.{Bytes, split-same}

-- `setUint32(0, n, true)`
unfoldable pub set_uint32_le : ℕ → Bytes
set_uint32_le n = n % 256 ∷ (n / 256) % 256 ∷ (n / 65536) % 256 ∷ (n / 16777216) % 256 ∷ []

-- `ton-proof-item-v2/`
abbrev pub proof_label : Bytes
proof_label =
    116 ∷ 111 ∷ 110 ∷ 45 ∷ 112 ∷ 114 ∷ 111 ∷ 111 ∷ 102 ∷ 45 ∷ 105 ∷ 116 ∷ 101 ∷ 109 ∷ 45 ∷ 118 ∷ 50
    ∷ 47 ∷ []

-- `ton-connect`
abbrev pub connect_label : Bytes
connect_label = 116 ∷ 111 ∷ 110 ∷ 45 ∷ 99 ∷ 111 ∷ 110 ∷ 110 ∷ 101 ∷ 99 ∷ 116 ∷ []

-- The workchain 0, the hash of the address, and the length of the domain.
unfoldable pub proof_head : Bytes → ℕ → Bytes
unfolding set_uint32_le
proof_head addr_hash domain_length = 0 ∷ 0 ∷ 0 ∷ 0 ∷ (addr_hash ++ set_uint32_le domain_length)

unfoldable pub proof_message : (addr_hash domain : Bytes) → ℕ → (payload : Bytes) → Bytes
unfolding proof_head set_uint32_le
proof_message addr_hash domain ts payload =
    proof_label
    ++ (proof_head addr_hash (length domain)
        ++ (domain ++ ((set_uint32_le ts ++ (0 ∷ 0 ∷ 0 ∷ 0 ∷ [])) ++ payload)))

-- What is signed, with the hash of the platform.
unfoldable pub proof_digest : (sha256 : Bytes → Bytes) → Bytes → Bytes
proof_digest sha256 message = sha256 (255 ∷ 255 ∷ (connect_label ++ sha256 message))

set_uint32_le-same :
    (m n : ℕ) → m < 4294967296 → n < 4294967296 → set_uint32_le m ≡ set_uint32_le n → m ≡ n
unfolding set_uint32_le
set_uint32_le-same m n hm hn e =
    let a : (m / 16777216) % 256 ≡ (n / 16777216) % 256 = ground (arith, e) in
    let b : (m / 65536) % 256 ≡ (n / 65536) % 256 = ground (arith, e) in
    let c : (m / 256) % 256 ≡ (n / 256) % 256 = ground (arith, e) in
    let d : m % 256 ≡ n % 256 = ground (arith, e) in omega arith

head-length :
    (addr addr' : Bytes) (m n : ℕ)
    → length addr ≡ 32
    → length addr' ≡ 32
    → length (proof_head addr m) ≡ length (proof_head addr' n)
unfolding proof_head set_uint32_le
head-length addr addr' m n len len' =
    omega (arith, length-append addr (set_uint32_le m), length-append addr' (set_uint32_le n))

-- The message of a proof determines the hash of the address, the domain, the time and the server's
-- payload, if hashes have 32 bytes, and lengths of domains and times are below 2 ^ 32.
pub proof_message-same :
    (addr addr' domain domain' : Bytes) (ts ts' : ℕ) (payload payload' : Bytes)
    → length addr ≡ 32
    → length addr' ≡ 32
    → length domain < 4294967296
    → length domain' < 4294967296
    → ts < 4294967296
    → ts' < 4294967296
    → proof_message addr domain ts payload ≡ proof_message addr' domain' ts' payload'
    → (addr ≡ addr') × (domain ≡ domain') × (ts ≡ ts') × (payload ≡ payload')
unfolding proof_message proof_head
proof_message-same addr addr' domain domain' ts ts' payload payload' len len' small small' now now'
      e =
    let heads =
      split-same (proof_head addr (length domain)) (proof_head addr' (length domain')) _ _
        (head-length addr addr' (length domain) (length domain') len len') (ap (drop 18) e) in
    let (addrs, lens) =
      split-same addr addr' (set_uint32_le (length domain)) (set_uint32_le (length domain'))
        (len ∙ sym len') (ap (drop 4) heads.0) in
    let (domains, rest) =
      split-same domain domain' _ _ (set_uint32_le-same _ _ small small' lens) heads.1 in
    let (times, tail) =
      split-same (set_uint32_le ts ++ (0 ∷ 0 ∷ 0 ∷ 0 ∷ []))
        (set_uint32_le ts' ++ (0 ∷ 0 ∷ 0 ∷ 0 ∷ [])) payload payload' refl rest in
    (addrs, domains, set_uint32_le-same ts ts' now now' (ap (take 4) times), tail)
