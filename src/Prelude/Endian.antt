-- ===== src/Prelude/Endian.antt =====
-- `to_be_bytes` and `from_be_bytes` of `i64`, and the equality of byte strings.
use Prim.Native.Nat.{ℕ, zero, suc, ◌+◌, ◌-◌, ◌*◌, ◌/◌, ◌%◌, ◌^◌, ◌<◌}
use mathlib.Core.Path.{◌≡◌, refl}
use mathlib.Core.Logic.{◌↔◌}
use mathlib.Core.Bool.{true}
use mathlib.Core.List.{[], ◌∷◌, ◌++◌}
use native.Mathlib.Omega.{arith}
use native.Mathlib.Nat.{pow-suc}
use tron_rs.Prelude.Tests.{ltb, if◌then◌else◌}
use tron_rs.Prelude.Lists.{Bytes, bytes_eq, length, length-append}
use tron_rs.Prelude.Int.{ℤ, pos, negsuc, IsI64}

-- The low `w` bytes of a number, the most significant first.
unfoldable pub be_bytes : ℕ → ℕ → Bytes
be_bytes zero n = []
be_bytes (suc w) n = be_bytes w (n / 256) ++ n % 256 ∷ []

from_be_acc : ℕ → Bytes → ℕ
from_be_acc acc [] = acc
from_be_acc acc (b ∷ bs) = from_be_acc (acc * 256 + b) bs

unfoldable pub from_be : Bytes → ℕ
unfolding from_be_acc
from_be bs = from_be_acc 0 bs

from_be_acc-append :
    (acc : ℕ) (xs : Bytes) (b : ℕ) → from_be_acc acc (xs ++ b ∷ []) ≡ from_be_acc acc xs * 256 + b
unfolding from_be_acc
from_be_acc-append acc [] b = refl
from_be_acc-append acc (x ∷ xs) b = from_be_acc-append (acc * 256 + x) xs b

pub length-be_bytes : (w n : ℕ) → length (be_bytes w n) ≡ w
unfolding be_bytes
length-be_bytes zero n = refl
length-be_bytes (suc w) n =
    omega (arith, length-be_bytes w (n / 256), length-append (be_bytes w (n / 256)) (n % 256 ∷ []))

pub from_be-be_bytes : (w n : ℕ) → n < 256 ^ w → from_be (be_bytes w n) ≡ n
unfolding from_be be_bytes
from_be-be_bytes zero n h = omega arith
from_be-be_bytes (suc w) n h =
    rw (from_be_acc-append 0 (be_bytes w (n / 256)) (n % 256))
      (omega (arith, from_be-be_bytes w (n / 256) (omega (arith, pow-suc 256 w))))

-- The bit pattern of an `i64`, as an unsigned number, and back.
unfoldable pub to_bits : ℤ → ℕ
to_bits (pos n) = n % 2 ^ 64
to_bits (negsuc n) = 2 ^ 64 - 1 - n % 2 ^ 64

unfoldable pub of_bits : ℕ → ℤ
of_bits u = if ltb u (2 ^ 63) then pos u else negsuc (2 ^ 64 - 1 - u)

pub of_bits-to_bits : (a : ℤ) → IsI64 a → of_bits (to_bits a) ≡ a
unfolding of_bits to_bits
of_bits-to_bits (pos n) h = ground arith
of_bits-to_bits (negsuc n) h = ground arith

to_bits-lt : (a : ℤ) → to_bits a < 2 ^ 64
unfolding to_bits
to_bits-lt (pos n) = omega arith
to_bits-lt (negsuc n) = omega arith

-- `i64::to_be_bytes` and `i64::from_be_bytes`.
unfoldable pub i64_to_be : ℤ → Bytes
unfolding be_bytes to_bits
i64_to_be a = be_bytes 8 (to_bits a)

unfoldable pub i64_from_be : Bytes → ℤ
unfolding of_bits from_be
i64_from_be bs = of_bits (from_be bs)

pub length-i64_to_be : (a : ℤ) → length (i64_to_be a) ≡ 8
unfolding i64_to_be
length-i64_to_be a = length-be_bytes 8 (to_bits a)

pub i64_from_be-i64_to_be : (a : ℤ) → IsI64 a → i64_from_be (i64_to_be a) ≡ a
unfolding i64_to_be i64_from_be
i64_from_be-i64_to_be a h = rw (from_be-be_bytes 8 (to_bits a) (to_bits-lt a)) (of_bits-to_bits a h)

pub bytes_eq_iff : (x y : Bytes) → (bytes_eq x y ≡ true) ↔ (x ≡ y)
unfolding bytes_eq
bytes_eq_iff [] [] = ground arith
bytes_eq_iff [] (b ∷ y) = ground arith
bytes_eq_iff (a ∷ x) [] = ground arith
bytes_eq_iff (a ∷ x) (b ∷ y) = ground (arith, bytes_eq_iff x y)

pub bytes_eq_refl : (x : Bytes) → bytes_eq x x ≡ true
bytes_eq_refl x = (bytes_eq_iff x x).1 refl

pub bytes_eq_sym : (a b : Bytes) → bytes_eq a b ≡ bytes_eq b a
unfolding bytes_eq
bytes_eq_sym [] [] = refl
bytes_eq_sym [] (b ∷ v) = refl
bytes_eq_sym (a ∷ u) [] = refl
bytes_eq_sym (a ∷ u) (b ∷ v) = ground (arith, bytes_eq_sym u v)
