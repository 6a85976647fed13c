-- ===== src/Audit/Sha256.antt =====
-- The SHA-256 of the audit logger, `internalSha256` of aille_audit.cpp, over 32-bit words.
use Prim.Native.Nat.{ℕ, zero, suc, ◌+◌, ◌-◌, ◌*◌, ◌/◌, ◌%◌, ◌^◌, bit_and, bit_xor}
use ailee_finance_unified_ru.Prelude.{
  List, [], ◌∷◌, ◌++◌, map, length, get_or, take, drop, replicate, if◌then◌else◌, ltb, ◌==◌,
}
use ailee_finance_unified_ru.Prelude.Bytes.{Bytes}

abbrev word : ℕ → ℕ
word n = n % 4_294_967_296

-- `value << (32 - bits)` drops what leaves the word; the two parts share no digit.
unfoldable pub rotate_right : ℕ → ℕ → ℕ
rotate_right value bits = value / 2 ^ bits + word (value * 2 ^ (32 - bits))

abbrev invert : ℕ → ℕ
invert n = 4_294_967_295 - n

unfoldable pub round_constants : List ℕ
round_constants =
    1_116_352_408 ∷ 1_899_447_441 ∷ 3_049_323_471 ∷ 3_921_009_573 ∷ 961_987_163 ∷ 1_508_970_993
    ∷ 2_453_635_748 ∷ 2_870_763_221 ∷ 3_624_381_080 ∷ 310_598_401 ∷ 607_225_278 ∷ 1_426_881_987
    ∷ 1_925_078_388 ∷ 2_162_078_206 ∷ 2_614_888_103 ∷ 3_248_222_580 ∷ 3_835_390_401 ∷ 4_022_224_774
    ∷ 264_347_078 ∷ 604_807_628 ∷ 770_255_983 ∷ 1_249_150_122 ∷ 1_555_081_692 ∷ 1_996_064_986
    ∷ 2_554_220_882 ∷ 2_821_834_349 ∷ 2_952_996_808 ∷ 3_210_313_671 ∷ 3_336_571_891 ∷ 3_584_528_711
    ∷ 113_926_993 ∷ 338_241_895 ∷ 666_307_205 ∷ 773_529_912 ∷ 1_294_757_372 ∷ 1_396_182_291
    ∷ 1_695_183_700 ∷ 1_986_661_051 ∷ 2_177_026_350 ∷ 2_456_956_037 ∷ 2_730_485_921 ∷ 2_820_302_411
    ∷ 3_259_730_800 ∷ 3_345_764_771 ∷ 3_516_065_817 ∷ 3_600_352_804 ∷ 4_094_571_909 ∷ 275_423_344
    ∷ 430_227_734 ∷ 506_948_616 ∷ 659_060_556 ∷ 883_997_877 ∷ 958_139_571 ∷ 1_322_822_218
    ∷ 1_537_002_063 ∷ 1_747_873_779 ∷ 1_955_562_222 ∷ 2_024_104_815 ∷ 2_227_730_452 ∷ 2_361_852_424
    ∷ 2_428_436_474 ∷ 2_756_734_187 ∷ 3_204_031_479 ∷ 3_329_325_298 ∷ []

-- How many zeros `while ((data.size() % 64) != 56)` appends, on fuel.
unfoldable pub zeros : ℕ → ℕ → ℕ
zeros zero size = 0
zeros (suc fuel) size = let rest = zeros fuel (size + 1) in if size % 64 == 56 then 0 else suc rest

unfoldable pub pad : Bytes → Bytes
pad input =
    let size = length input in
    let bits = size * 8 % 2 ^ 64 in
    input
    ++ (128 ∷ replicate (zeros 64 (size + 1)) 0)
    ++ map (λ (i : ℕ). bits / 2 ^ (i * 8) % 256) (7 ∷ 6 ∷ 5 ∷ 4 ∷ 3 ∷ 2 ∷ 1 ∷ 0 ∷ [])

-- Words of four bytes, the first the highest.
unfoldable pub words : Bytes → List ℕ
words (a ∷ b ∷ c ∷ d ∷ s) = (a * 16_777_216 + b * 65_536 + c * 256 + d) ∷ words s
words _ = []

abbrev xor3 : ℕ → ℕ → ℕ → ℕ
xor3 a b c = bit_xor (bit_xor a b) c

abbrev sigma0 : ℕ → ℕ
sigma0 x = xor3 (rotate_right x 7) (rotate_right x 18) (x / 8)

abbrev sigma1 : ℕ → ℕ
sigma1 x = xor3 (rotate_right x 17) (rotate_right x 19) (x / 1_024)

-- The words from 16 on, each from four before it.
unfoldable pub schedule : ℕ → List ℕ → List ℕ
unfolding rotate_right
schedule zero w = w
schedule (suc n) w =
    let i = length w in
    let next = word (
      get_or w (i - 16) 0
      + sigma0 (get_or w (i - 15) 0)
      + get_or w (i - 7) 0
      + sigma1 (get_or w (i - 2) 0)) in
    schedule n (w ++ (next ∷ []))

pub record Work : Type 0 where
  pub a : ℕ
  pub b : ℕ
  pub c : ℕ
  pub d : ℕ
  pub e : ℕ
  pub f : ℕ
  pub g : ℕ
  pub h : ℕ

unfoldable pub work_round : ℕ → ℕ → Work → Work
unfolding rotate_right
work_round k w s =
    let s1 = xor3 (rotate_right s.e 6) (rotate_right s.e 11) (rotate_right s.e 25) in
    let ch = bit_xor (bit_and s.e s.f) (bit_and (invert s.e) s.g) in
    let temp1 = word (s.h + s1 + ch + k + w) in
    let s0 = xor3 (rotate_right s.a 2) (rotate_right s.a 13) (rotate_right s.a 22) in
    let maj = xor3 (bit_and s.a s.b) (bit_and s.a s.c) (bit_and s.b s.c) in
    let temp2 = word (s0 + maj) in
    record {
      a = word (temp1 + temp2);
      b = s.a;
      c = s.b;
      d = s.c;
      e = word (s.d + temp1);
      f = s.e;
      g = s.f;
      h = s.g;
    }

unfoldable pub work_rounds : List ℕ → List ℕ → Work → Work
work_rounds (k ∷ ks) (w ∷ ws) s = work_rounds ks ws (work_round k w s)
work_rounds _ _ s = s

unfoldable pub compress : Work → List ℕ → Work
unfolding round_constants
compress h block =
    let s = work_rounds round_constants (schedule 48 block) h in
    record {
      a = word (h.a + s.a);
      b = word (h.b + s.b);
      c = word (h.c + s.c);
      d = word (h.d + s.d);
      e = word (h.e + s.e);
      f = word (h.f + s.f);
      g = word (h.g + s.g);
      h = word (h.h + s.h);
    }

-- The chunks of 64 bytes, by their number.
unfoldable pub chunks : ℕ → Work → List ℕ → Work
chunks zero h ws = h
chunks (suc n) h ws = chunks n (compress h (take 16 ws)) (drop 16 ws)

abbrev pub initial : Work
initial = record {
  a = 1_779_033_703;
  b = 3_144_134_277;
  c = 1_013_904_242;
  d = 2_773_480_762;
  e = 1_359_893_119;
  f = 2_600_822_924;
  g = 528_734_635;
  h = 1_541_459_225;
}

abbrev pub digit : ℕ → ℕ
digit n = if ltb n 10 then 48 + n else 87 + n

-- A word in hexadecimal, as wide as `n` digits.
unfoldable pub hex_word : ℕ → ℕ → Bytes
hex_word zero v = []
hex_word (suc n) v = digit (v / 16 ^ n % 16) ∷ hex_word n v

unfoldable pub hex_work : Work → Bytes
hex_work s =
    hex_word 8 s.a
    ++ (hex_word 8 s.b
        ++ (hex_word 8 s.c
            ++ (hex_word 8 s.d
                ++ (hex_word 8 s.e
                    ++ (hex_word 8 s.f ++ (hex_word 8 s.g ++ (hex_word 8 s.h ++ [])))))))

unfoldable pub internal_sha256 : Bytes → Bytes
internal_sha256 input =
    let padded = pad input in hex_work (chunks (length padded / 64) initial (words padded))
