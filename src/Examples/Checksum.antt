-- ===== src/Examples/Checksum.antt =====
-- The theorems on src/checksum.c at the header of an echo request.
use nftlb.Prelude.{ℕ, ◌≡◌, List, [], ◌∷◌, arith}
use nftlb.Checksum.{
  checksum, with_checksum, total, IsComplement, checksum-IsComplement, checksum-with_checksum,
}

abbrev echo_request : List ℕ
echo_request = 8 ∷ 0 ∷ 18 ∷ 52 ∷ 0 ∷ 1 ∷ []

checksum-IsComplement_example : IsComplement (total echo_request) (checksum echo_request)
checksum-IsComplement_example =
    checksum-IsComplement echo_request
      (omega arith, (omega arith, (omega arith, (omega arith, (omega arith, (omega arith, tt))))))
      (omega arith)

checksum-with_checksum_example : checksum (with_checksum echo_request) ≡ 0
checksum-with_checksum_example =
    checksum-with_checksum echo_request tt
      (omega arith, (omega arith, (omega arith, (omega arith, (omega arith, (omega arith, tt))))))
      (omega arith)
