-- ===== src/Dumper/Image/Placing.antt =====
-- What `place_payloads` keeps of the mappings.
use ksnap.Base.{ℕ, suc, ◌+◌, ◌^◌, ◌≤◌, ◌<◌, ◌≡◌, refl, ap, List, [], ◌∷◌, length, All, arith}
use ksnap.Base.Word.{add64}
use ksnap.Format.{VmaDescriptor}
use ksnap.Format.Structs.{vma_codec}
use ksnap.Dumper.Image.{place_payloads, total_size}

-- A mapping whose numbers fit their fields, inside the address space, with a known protection.
pub record IsVma (v : VmaDescriptor) : Type 0 where
  pub fits : vma_codec.Fits v
  pub in_address_space : v.start_address + v.size ≤ 2 ^ 64
  pub known_prot : v.prot < 8

-- Placed payloads keep all but their offsets, which stay below the end of the file.
pub place_payloads-Fits :
    (offset : ℕ) (vmas : List VmaDescriptor)
    → offset + total_size vmas < 2 ^ 63
    → All IsVma vmas
    → All vma_codec.Fits (place_payloads offset vmas)
unfolding place_payloads
place_payloads-Fits offset [] h all = tt
place_payloads-Fits offset (v ∷ vmas) h (valid, all) =
    let f = valid.fits in
    let next : add64 offset v.size ≡ offset + v.size = omega arith in
    (
      (f.0, (f.1.0, (f.1.1.0, (omega arith, f.1.1.1.1)))),
      place_payloads-Fits (add64 offset v.size) vmas (omega arith) all,
    )

pub length-place_payloads :
    (offset : ℕ) (vmas : List VmaDescriptor) → length (place_payloads offset vmas) ≡ length vmas
unfolding place_payloads
length-place_payloads offset [] = refl
length-place_payloads offset (v ∷ vmas) = ap suc (length-place_payloads (add64 offset v.size) vmas)

pub total_size-place_payloads :
    (offset : ℕ) (vmas : List VmaDescriptor)
    → total_size (place_payloads offset vmas) ≡ total_size vmas
unfolding place_payloads
total_size-place_payloads offset [] = refl
total_size-place_payloads offset (v ∷ vmas) =
    ap (◌+◌ v.size) (total_size-place_payloads (add64 offset v.size) vmas)

pub place_payloads-InAddressSpace :
    (offset : ℕ) (vmas : List VmaDescriptor)
    → All IsVma vmas
    → All (λ (v : VmaDescriptor). v.start_address + v.size ≤ 2 ^ 64) (place_payloads offset vmas)
unfolding place_payloads
place_payloads-InAddressSpace offset [] all = tt
place_payloads-InAddressSpace offset (v ∷ vmas) (valid, all) =
    (valid.in_address_space, place_payloads-InAddressSpace (add64 offset v.size) vmas all)
