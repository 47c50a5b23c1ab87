-- ===== src/Tests/SafeKey.antt =====
-- A key of 2048 bits with two safe primes, and their certificates.
use eu_trust_sdk.Base.{
  ℕ, ◌+◌, ◌-◌, ◌*◌, ◌^◌, ◌≡◌, ◌≢◌, refl, arith, ltb, ltb→lt, ap, sym, ◌∙◌, true, false, ◌==◌,
  ==_refl, leb, leb→le,
}
use eu_trust_sdk.Rsa.Arith.{bit_len_from, bit_len}
use eu_trust_sdk.Rsa.Arith.Euclid.{IsPrime}
use eu_trust_sdk.Rsa.Arith.Trial.{undivided, undivided-IsPrime}
use eu_trust_sdk.Rsa.Arith.Pocklington.{certified, certified-IsPrime}
use eu_trust_sdk.Rsa.Keys.{KeyPair}
use eu_trust_sdk.Rsa.Generate.{prime_bits}
use eu_trust_sdk.Rsa.Generate.Safe.{IsSafePrime, IsSafeKey}

abbrev order_0 : ℕ
order_0 = 3145739

order_0-IsPrime : IsPrime order_0
unfolding undivided
order_0-IsPrime = undivided-IsPrime 2100 order_0 refl (omega arith) (omega arith)

abbrev order_1 : ℕ
order_1 = 0xeece36b9e1

abbrev order_1_base : ℕ
order_1_base = 0x6f83deef62

abbrev order_1_inverse : ℕ
order_1_inverse = 0x6d8520d443

order_1-IsPrime : IsPrime order_1
unfolding certified
order_1-IsPrime =
    certified-IsPrime 22 order_1 order_0 order_1_base order_1_inverse order_0-IsPrime refl

abbrev order_2 : ℕ
order_2 = 0x90d8c6c7f439b8777a1

abbrev order_2_base : ℕ
order_2_base = 0x84b71729ca9d54e2659

abbrev order_2_inverse : ℕ
order_2_inverse = 0x65d2e3536dcfbcbfcd9

order_2-IsPrime : IsPrime order_2
unfolding certified
order_2-IsPrime =
    certified-IsPrime 40 order_2 order_1 order_2_base order_2_inverse order_1-IsPrime refl

abbrev order_3 : ℕ
order_3 = 0x391955f267c0881ba6283c4dcb1186f483b35

abbrev order_3_base : ℕ
order_3_base = 0x243b47877c193acc9ffb302ef0c99b26908d5

abbrev order_3_inverse : ℕ
order_3_inverse = 0x24f127876b1f6e238f455e0c2a8b3d80efac4

order_3-IsPrime : IsPrime order_3
unfolding certified
order_3-IsPrime =
    certified-IsPrime 76 order_3 order_2 order_3_base order_3_inverse order_2-IsPrime refl

abbrev order_4 : ℕ
order_4 = 0x9bf4b65 * 2 ^ 256 + 0x523d6a070c13886dc25c123dd41299175428f62307b51b5c3f132664a7d3b75b

abbrev order_4_base : ℕ
order_4_base =
    0x1949bf6 * 2 ^ 256 + 0xe878f595567e9b503b0cc8afba60e064ab29ce06ae926692c2cdc251d28e1e31

abbrev order_4_inverse : ℕ
order_4_inverse =
    0xbda6de * 2 ^ 256 + 0xed6a21a26701c03da5a60ad095a08b8021f33c02ef557b23daab16c7d8ec10a0

order_4-IsPrime : IsPrime order_4
unfolding certified
order_4-IsPrime =
    certified-IsPrime 146 order_4 order_3 order_4_base order_4_inverse order_3-IsPrime refl

abbrev order_5 : ℕ
order_5 =
    (0x827fef3 * 2 ^ 256 + 0x2912c24e20aa38b2e96a059fa16f5d6cdea55dc0ab448ea477184a8247b0b2e1)
      * 2 ^ 256
    + 0x2cac4adc95a6530bdf2ba17fd2bb4acef169d8dbacf1a95b54193300b4e58ff1

abbrev order_5_base : ℕ
order_5_base =
    (0x7b3c0f6 * 2 ^ 256 + 0xf1d8512bd9de4f22ff059fa24e1e530c1f9f738ed5775f1f26e59efd65142e62)
      * 2 ^ 256
    + 0xb5c543f136d324cda49da08d99fb346466eeffbe4fa2679718db4b18a7ada0a9

abbrev order_5_inverse : ℕ
order_5_inverse =
    (0xbde03f * 2 ^ 256 + 0xab234d206e0f87b3acde8e06a47a76c114924b6a45c6e6631a4fce0a4d82d001)
      * 2 ^ 256
    + 0xc03941fb5ece3d30080f7dab2f5dcbd14f7e6e0ec15a034833b3db88c9fa9c7

order_5-IsPrime : IsPrime order_5
unfolding certified
order_5-IsPrime =
    certified-IsPrime 284 order_5 order_4 order_5_base order_5_inverse order_4-IsPrime refl

abbrev half_p : ℕ
half_p =
    ((0x620e68505ef4beeea4696f81c97c08b8bb5f2361af6f0a01749f535078133296 * 2 ^ 256
            + 0x18baaa50cc83282c8de57834db689c0107fb60a6e68258ec76320c5df32c7073)
          * 2 ^ 256
        + 0x80e9e0bb7cea67590168e5994b31e7d0faa99fc753b752b2c55844d8947e8241)
      * 2 ^ 256
    + 0xd810697273557a06323e04eab54b3fb2805952db4f88f2e00693948744c04e83

abbrev half_p_base : ℕ
half_p_base =
    ((0x301bd72f21e5fdc7372d347b6c08fb053c310331849efa59173ba41fa92c9736 * 2 ^ 256
            + 0xb0a14792f3b28697cb22c9e5c6e60d11a7efb22991825b06162edf427272cbb0)
          * 2 ^ 256
        + 0xa82e14e3dfd6ed568452fd86c6347e62388c06bf6f1ae4afef0c24d78647f374)
      * 2 ^ 256
    + 0x5adf2f6d607b9edc401bfdf8d9f389981c13daf035ad8459eeddb8add0337b55

abbrev half_p_inverse : ℕ
half_p_inverse =
    ((0x3b04853d6769a1c3f15d2af82e0d0f78265ea1dfa892efbf7dd196f7973b8a48 * 2 ^ 256
            + 0x6c8889eadf826e2d595d2f2724021c9f9c9a6fb6dd95f1b920bac5f4f423437e)
          * 2 ^ 256
        + 0x9f4cd577221c4f3354d882c3d6be20ae90cba57a140992495961bb2830d47005)
      * 2 ^ 256
    + 0x7dcf6c7d06667e1ed5e3b00e34326624467dc5d268c411d59b09624fad54817d

half_p-IsPrime : IsPrime half_p
unfolding certified
half_p-IsPrime =
    certified-IsPrime 540 half_p order_5 half_p_base half_p_inverse order_5-IsPrime refl

abbrev safe_p : ℕ
safe_p = half_p * 2 + 1

abbrev safe_p_base : ℕ
safe_p_base = 0x4

abbrev safe_p_inverse : ℕ
safe_p_inverse =
    ((0x415ef03594a329f46d9b9fabdba805d07cea179674f4b1564dbf8ce0500ccc64 * 2 ^ 256
            + 0x107c718b33021ac85e98facde79b12ab5aa795c499ac3b484ecc083ea21da04d)
          * 2 ^ 256
        + 0x9beb27a89c44e600f09910dccbefe0a71bbfda37cf8c772e3ad89062ff0181)
      * 2 ^ 256
    + 0x3ab59ba1a238fc04217eadf1ce322a77003b8c923505f74004626304d8803458

safe_p-IsPrime : IsPrime safe_p
unfolding certified
safe_p-IsPrime = certified-IsPrime 1023 safe_p half_p safe_p_base safe_p_inverse half_p-IsPrime refl

abbrev half_q : ℕ
half_q =
    ((0x7492824c520be51690d5c99a7fe82e148c5c8a2ed0dedde0544f88b8c3585014 * 2 ^ 256
            + 0x6fa39ed8ef9b3df0925a287092a9420ae7a0caa036e55d9942b90c97fee7b4da)
          * 2 ^ 256
        + 0x39fc82f10310156ed80f7e43128dbead5d0650b2753e5f262bec99fba163b355)
      * 2 ^ 256
    + 0xe0081185b057cde429c9a4a4442b672e3f2fa50054a75a2e2f33b8c78b07379b

abbrev half_q_base : ℕ
half_q_base =
    ((0x707f7c03a3b65d257eef0ccfc223b75466075a57946f094502c7d0774364815a * 2 ^ 256
            + 0xfde23a930c38d31672ee722f21b6bfbab47ef3abc54c7169438f4c75e1406fcf)
          * 2 ^ 256
        + 0xa7bbfc58969e6b005e0825d70558011ae2a61835d8b79c566238b08b59d10838)
      * 2 ^ 256
    + 0x1cadd8a8ccdfdf8e5c47feda80751e718dfdbd56099f1e7b8efb550be984d027

abbrev half_q_inverse : ℕ
half_q_inverse =
    ((0x417c1a00f97a5699e0329649df9561afab4840b645146079a041194bee417b34 * 2 ^ 256
            + 0x4ff555f2ed759b35a7c03ee0c532eb71eb02834083bfce76c501df40e7e58f4f)
          * 2 ^ 256
        + 0x4b5f85a807d9a84d1dd2ebf28a672805ae467a3176a1319c5b6d867c5e8e4622)
      * 2 ^ 256
    + 0x8ae0186631346964643f49828200e45a74e63b7b75b8cc4488804e013ead5ec4

half_q-IsPrime : IsPrime half_q
unfolding certified
half_q-IsPrime =
    certified-IsPrime 540 half_q order_5 half_q_base half_q_inverse order_5-IsPrime refl

abbrev safe_q : ℕ
safe_q = half_q * 2 + 1

abbrev safe_q_base : ℕ
safe_q_base = 0x4

abbrev safe_q_inverse : ℕ
safe_q_inverse =
    ((0x4db7018836b298b9b5e3dbbc5545740db2e85c1f35e9e940383505d0823ae00d * 2 ^ 256
            + 0x9fc269e5f512294b0c3c1af5b71b815c9a6b31c02498e910d7260865549a7891)
          * 2 ^ 256
        + 0x7bfdaca0acb5639f3ab4fed761b3d47393598b21a37eea19729dbbfd1642778e)
      * 2 ^ 256
    + 0x955ab659203a8942c6866dc2d81cef742a1fc3558dc4e6c974cd25da5caf7a68

safe_q-IsPrime : IsPrime safe_q
unfolding certified
safe_q-IsPrime = certified-IsPrime 1023 safe_q half_q safe_q_base safe_q_inverse half_q-IsPrime refl

abbrev private : ℕ
private =
    ((((((0x29f2646e7bfdaad93dc2c13bfe5a08e639ec039115558f55681369df46a1744 * 2 ^ 256
                            + 0xd168d7d528ba169934ae33decdcad043540f88ff52a00a05b4acca91b5bb6433)
                          * 2 ^ 256
                        + 0xfac241802c443e96c84e8ddd6fce205489ef0b8fa516ea565293d661b5bb7619)
                      * 2 ^ 256
                    + 0x73f087919489d5347558375bcb045999c98875ff893a3b87cc40d5258a3f9de0)
                  * 2 ^ 256
                + 0x91bd6257fdee0dd201d5c7f8b1bbe1d0bc2c1145977cd85e65b19e348afd6c30)
              * 2 ^ 256
            + 0xd57dfa81dc51044c8730619e519d645583b790865e078a7423d3bd9526a0afa3)
          * 2 ^ 256
        + 0x473fe9d7e38cbe1b1b411ae328d3e242608be5234a41f4fa0470a683e938e6c5)
      * 2 ^ 256
    + 0x278bf2254d096319556cbbb97a5ac80c2c9f414ee5ebf6d83df3d4a4d5c33189

differ : safe_p ≢ safe_q
differ e = absurd (true-false (sym (==_refl safe_p) ∙ ap (λ (t : ℕ). safe_p == t) e))
  where
    true-false : true ≢ false
    true-false h = cc h

abbrev pub key : KeyPair
key = record {
  n = safe_p * safe_q;
  e = 65537;
  d = private;
  p = safe_p;
  q = safe_q;
  phi = (safe_p - 1) * (safe_q - 1);
}

safe :
    (bits p half : ℕ)
    → p ≡ half * 2 + 1
    → IsPrime p
    → IsPrime half
    → leb (3 * 2 ^ (bits - 2)) half ≡ true
    → ltb half (2 ^ bits) ≡ true
    → IsSafePrime bits p
safe bits p half double outer inner low high = record {
  p' = half;
  double = double;
  outer = outer;
  inner = inner;
  low = leb→le (3 * 2 ^ (bits - 2)) half low;
  high = ltb→lt half (2 ^ bits) high;
}

pub key-IsSafeKey : IsSafeKey 2048 key
unfolding bit_len bit_len_from prime_bits
key-IsSafeKey = record {
  safe_p = safe 1023 safe_p half_p refl safe_p-IsPrime half_p-IsPrime refl refl;
  safe_q = safe 1023 safe_q half_q refl safe_q-IsPrime half_q-IsPrime refl refl;
  differ = differ;
  product = refl;
  size = refl;
  totient = refl;
  exponent = refl;
  inverse = refl;
  reduced = ltb→lt private ((safe_p - 1) * (safe_q - 1)) refl;
}
