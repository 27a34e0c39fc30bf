-- ===== src/Domain/Msisdn/Examples.antt =====
-- Numbers as they are typed.
use vox_guard.Base.{◌≡◌, refl, true, length}
use vox_guard.Domain.Result.{ok}
use vox_guard.Domain.Msisdn.Defs.{
  Text, codes, is_space, digits_then_end, is_valid, clean, canonical, normalize, Msisdn,
  make_msisdn, from_string, is_nigerian,
}
use vox_guard.Domain.Msisdn.Laws.{from_string-canonical}

abbrev number : Msisdn
number = record { value = codes "+2348031234567" }

typed_reads : from_string (codes "0803 123-4567") ≡ ok number
unfolding from_string make_msisdn is_valid digits_then_end normalize clean canonical is_space
typed_reads = refl

from_string-canonical_example :
    (length (codes "+2348031234567") ≡ 14)
    × (is_nigerian number ≡ true)
    × (from_string (codes "+2348031234567") ≡ ok number)
from_string-canonical_example = from_string-canonical (codes "0803 123-4567") number typed_reads

abbrev digits : Text
digits = codes "8031234567"

digits_end : digits_then_end 10 digits ≡ true
unfolding digits_then_end
digits_end = refl
