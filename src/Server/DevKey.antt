-- ===== src/Server/DevKey.antt =====
-- `loadDevKey` and `hexToInt` of cmd/server/main.go. The errors of `hexToInt` that `loadDevKey` drops
-- leave a nil pointer, at which the key's making panics: that is `none` here.
use eu_trust_sdk.Base.{ℕ, Option, none, some, codes, Text, ◌++◌}
use eu_trust_sdk.Base.Bytes.{to_int}
use eu_trust_sdk.Base.Hex
use eu_trust_sdk.Rsa.Keys.{KeyPair, key_pair_from_components}

unfoldable pub hex_to_int : Text → Option ℕ
hex_to_int s = elim (Hex.decode s) [ none ↦ none | some b ↦ some (to_int b) ]

abbrev dev_n : Text
dev_n =
    codes "d6930820f71fe517bf3259d14d40209b02a5c0d3d61991c731dd7da39f8d69821552e2318d6c9ad8"
    ++ codes "97e603887a476ea3162c1205da9ac96f02edf31df049bd55f142134c17d4382a0e78e275345f165f"
    ++ codes "be8e49cdca6cf5c726c599dd39e09e75e0f330a33121e73976e4facba9cfa001c28b7c96f8134f99"
    ++ codes "81db6750b43a41710f51da4240fe03106c12acb1e7bb53d75ec7256da3fddd0718b89c365410fce6"
    ++ codes "1bc7c99b115fb4c3c318081fa7e1b65a37774e8e50c96e8ce2b2cc6b3b367982366a2bf9924c4baf"
    ++ codes "db3ff5e722258ab705c76d43e5f1f121b984814e98ea2b2b8725cd9bc905c0bc3d75c2a8db70a715"
    ++ codes "3213c39ae371b2b5dc1dafcb19d6fae9"

abbrev dev_e : Text
dev_e = codes "010001"

abbrev dev_d : Text
dev_d =
    codes "4e21356983722aa1adedb084a483401c1127b781aac89eab103e1cfc52215494981d18dd8028566d"
    ++ codes "9d499469c25476358de23821c78a6ae43005e26b394e3051b5ca206aa9968d68cae23b5affd9cbb4"
    ++ codes "cb16d64ac7754b3cdba241b72ad6ddfc000facdb0f0dd03abd4efcfee1730748fcc47b7621182ef8"
    ++ codes "af2eeb7c985349f62ce96ab373d2689baeaea0e28ea7d45f2d605451920ca4ea1f0c08b0f1f6711e"
    ++ codes "aa4b7cca66d58a6b916f9985480f90aca97210685ac7b12d2ec3e30a1c7b97b65a18d38a93189258"
    ++ codes "aa346bf2bc572cd7e7359605c20221b8909d599ed9d38164c9c4abf396f897b9993c1e805e574d70"
    ++ codes "4649985b600fa0ced8e5427071d7049d"

abbrev dev_p : Text
dev_p =
    codes "dcd90af1be463632c0d5ea555256a20605af3db667475e190e3af12a34a3324c46a3094062c59fb4"
    ++ codes "b249e0ee6afba8bee14e0276d126c99f4784b23009bf6168ff628ac1486e5ae8e23ce4d362889de4"
    ++ codes "df63109cbd90ef93db5ae64372bfe1c55f832766f21e94ea3322eb2182f10a891546536ba907ad74"
    ++ codes "b8d72469bea396f3"

abbrev dev_q : Text
dev_q =
    codes "f8ba5c89bd068f57234a3cf54a1c89d5b4cd0194f2633ca7c60b91a795a56fa8c8686c0e37b1c449"
    ++ codes "8b851e3420d08bea29f71d195cfbd3671c6ddc49cf4c1db5b478231ea9d91377ffa98fe95685fca2"
    ++ codes "0ba4623212b2f2def4da5b281ed0100b651f6db32112e4017d831c0da668768afa7141d45bbc279f"
    ++ codes "1e0f8735d74395b3"

infixl 5 ◌>>=◌
abbrev ◌>>=◌ {ℓ κ} : {A : Type ℓ} {B : Type κ} → Option A → (A → Option B) → Option B
none >>= next = none
some value >>= next = next value

unfoldable pub load_dev_key : Option KeyPair
unfolding hex_to_int
load_dev_key = do
  n ← hex_to_int dev_n
  e ← hex_to_int dev_e
  d ← hex_to_int dev_d
  p ← hex_to_int dev_p
  q ← hex_to_int dev_q
  some (key_pair_from_components n e d p q)
