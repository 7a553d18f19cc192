-- ===== src/Xv6/Fs/Words.antt =====
-- A block as an array of uints.
use os_codes.Common.{ℕ, ◌+◌, ◌*◌, ◌/◌, ◌%◌, ◌<◌, ◌≡◌, ◌≢◌, true, false, ◌==◌, arith}
use os_codes.Xv6.Fs.{put, get_word, set_word, word}

module _ {A : Type 0} where
  pub put_self : (f : ℕ → A) (k : ℕ) (v : A) → put f k v k ≡ v
  put_self f k v = let hit : (k == k) ≡ true = ground arith in rw hit

  pub put_other : (f : ℕ → A) (k : ℕ) (v : A) (n : ℕ) → n ≢ k → put f k v n ≡ f n
  put_other f k v n e = let miss : (n == k) ≡ false = ground arith in rw miss

-- A number is put together from its bytes.
bytes_of :
    (n : ℕ)
    → n < word
    → n % 256 + 256 * (n / 256 % 256) + 65536 * (n / 65536 % 256) + 16777216 * (n / 16777216 % 256)
      ≡ n
bytes_of n h = omega arith

pub get_word-set_word_self : (a : ℕ → ℕ) (k n : ℕ) → n < word → get_word (set_word a k n) k ≡ n
get_word-set_word_self a k n h = ground (arith, bytes_of n h)

pub get_word-set_word_other :
    (a : ℕ → ℕ) (k j n : ℕ) → j ≢ k → get_word (set_word a k n) j ≡ get_word a j
get_word-set_word_other a k j n differ = ground arith
