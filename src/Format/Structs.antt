-- ===== src/Format/Structs.antt =====
-- The structures of the format as codecs: their fields in the order of declaration, with no padding.
use ksnap.Base.{ℕ, ◌≡◌, refl, List}
use ksnap.Base.Int.{ℤ}
use ksnap.Base.Text.{Bytes}
use ksnap.Format.{
  KernelMap, Header, VmaDescriptor, FdDescriptor, header_size, vma_size, fd_size, path_max,
  max_kernel_maps, kernel_map_name_len, regs_size,
}
use ksnap.Format.Codec.{
  Codec, IsLawful, raw, raw-IsLawful, both, both-IsLawful, struct, struct-IsLawful, array,
  array-IsLawful,
}
use ksnap.Format.Words.{u32, u64, i32, u32-IsLawful, u64-IsLawful, i32-IsLawful}

infixr 60 ◌⊗◌
abbrev ◌⊗◌ : {A B : Type 0} → Codec A → Codec B → Codec (A × B)
c ⊗ d = both c d

infixr 60 ◌⊠◌
◌⊠◌ : {A B : Type 0} {c : Codec A} {d : Codec B} → IsLawful c → IsLawful d → IsLawful (c ⊗ d)
◌⊠◌ {c} {d} lc ld = both-IsLawful c d lc ld

-- `kernel_map_t`
abbrev kernel_map_parts : KernelMap → ℕ × (ℕ × Bytes)
kernel_map_parts k = (k.start_address, (k.size, k.name))

abbrev make_kernel_map : ℕ × (ℕ × Bytes) → KernelMap
make_kernel_map (s, (z, n)) = record { start_address = s; size = z; name = n }

abbrev pub kernel_map_codec : Codec KernelMap
kernel_map_codec = struct (u64 ⊗ (u64 ⊗ raw kernel_map_name_len)) make_kernel_map kernel_map_parts

pub kernel_map_codec-IsLawful : IsLawful kernel_map_codec
kernel_map_codec-IsLawful =
    struct-IsLawful _ make_kernel_map kernel_map_parts
      (u64-IsLawful ⊠ (u64-IsLawful ⊠ raw-IsLawful kernel_map_name_len)) (λ k. refl)

-- `vma_descriptor_t`
abbrev VmaParts : Type 0
VmaParts = ℕ × (ℕ × (ℕ × (ℕ × (ℕ × (ℕ × (ℕ × ℕ))))))

abbrev vma_parts : VmaDescriptor → VmaParts
vma_parts v = (
  v.start_address,
  (v.size, (v.file_offset, (v.data_offset, (v.prot, (v.map_flags, (v.path_offset, v.path_len)))))),
)

abbrev make_vma : VmaParts → VmaDescriptor
make_vma (s, (z, (fo, (do', (p, (mf, (po, pl))))))) = record {
  start_address = s;
  size = z;
  file_offset = fo;
  data_offset = do';
  prot = p;
  map_flags = mf;
  path_offset = po;
  path_len = pl;
}

abbrev pub vma_codec : Codec VmaDescriptor
vma_codec = struct (u64 ⊗ (u64 ⊗ (u64 ⊗ (u64 ⊗ (u32 ⊗ (u32 ⊗ (u32 ⊗ u32))))))) make_vma vma_parts

pub vma_codec-IsLawful : IsLawful vma_codec
vma_codec-IsLawful =
    struct-IsLawful _ make_vma vma_parts
      (u64-IsLawful
        ⊠ (u64-IsLawful
            ⊠ (u64-IsLawful
                ⊠ (u64-IsLawful
                    ⊠ (u32-IsLawful ⊠ (u32-IsLawful ⊠ (u32-IsLawful ⊠ u32-IsLawful)))))))
      (λ v. refl)

-- `fd_descriptor_t`
abbrev FdParts : Type 0
FdParts = ℤ × (ℤ × (ℕ × (ℕ × (ℕ × (ℕ × ℕ)))))

abbrev fd_parts : FdDescriptor → FdParts
fd_parts f = (f.fd, (f.dup_of, (f.flags, (f.path_offset, (f.path_len, (f.reserved, f.position))))))

abbrev make_fd : FdParts → FdDescriptor
make_fd (n, (d, (fl, (po, (pl, (r, p)))))) = record {
  fd = n;
  dup_of = d;
  flags = fl;
  path_offset = po;
  path_len = pl;
  reserved = r;
  position = p;
}

abbrev pub fd_codec : Codec FdDescriptor
fd_codec = struct (i32 ⊗ (i32 ⊗ (u32 ⊗ (u32 ⊗ (u32 ⊗ (u32 ⊗ u64)))))) make_fd fd_parts

pub fd_codec-IsLawful : IsLawful fd_codec
fd_codec-IsLawful =
    struct-IsLawful _ make_fd fd_parts
      (i32-IsLawful
        ⊠ (i32-IsLawful
            ⊠ (u32-IsLawful ⊠ (u32-IsLawful ⊠ (u32-IsLawful ⊠ (u32-IsLawful ⊠ u64-IsLawful))))))
      (λ f. refl)

-- `ksnap_dump_header_t`, in three runs of fields
abbrev FrontParts : Type 0
FrontParts = Bytes × (ℕ × (ℕ × (ℕ × (ℕ × (ℕ × (ℕ × (ℕ × Bytes)))))))

abbrev MiddleParts : Type 0
MiddleParts = ℕ × (List KernelMap × Bytes)

abbrev BackParts : Type 0
BackParts = ℕ × (ℕ × (ℕ × (ℕ × (ℕ × ℕ))))

abbrev front_codec : Codec FrontParts
front_codec = raw 8 ⊗ (u32 ⊗ (u32 ⊗ (u64 ⊗ (u64 ⊗ (u64 ⊗ (u64 ⊗ (u32 ⊗ raw path_max)))))))

abbrev middle_codec : Codec MiddleParts
middle_codec = u32 ⊗ (array kernel_map_codec max_kernel_maps ⊗ raw regs_size)

abbrev back_codec : Codec BackParts
back_codec = u64 ⊗ (u32 ⊗ (u32 ⊗ (u64 ⊗ (u32 ⊗ u32))))

abbrev header_parts : Header → FrontParts × (MiddleParts × BackParts)
header_parts h = (
  (
    h.magic,
    (
      h.version,
      (
        h.vma_count,
        (
          h.vma_table_offset,
          (h.path_pool_offset, (h.path_pool_size, (h.data_offset, (h.exe_path_len, h.exe_path)))),
        ),
      ),
    ),
  ),
  (
    (h.kernel_map_count, (h.kernel_maps, h.regs)),
    (
      h.xstate_offset,
      (h.xstate_size, (h.xstate_reserved, (h.fd_table_offset, (h.fd_count, h.fd_reserved)))),
    ),
  ),
)

abbrev make_header : FrontParts × (MiddleParts × BackParts) → Header
make_header
      (
        (m, (v, (vc, (vt, (po, (ps, (da, (el, ep)))))))),
        ((kc, (ks, rs)), (xo, (xs, (xr, (ft, (fc, fr)))))),
      ) =
    record {
      magic = m;
      version = v;
      vma_count = vc;
      vma_table_offset = vt;
      path_pool_offset = po;
      path_pool_size = ps;
      data_offset = da;
      exe_path_len = el;
      exe_path = ep;
      kernel_map_count = kc;
      kernel_maps = ks;
      regs = rs;
      xstate_offset = xo;
      xstate_size = xs;
      xstate_reserved = xr;
      fd_table_offset = ft;
      fd_count = fc;
      fd_reserved = fr;
    }

abbrev pub header_codec : Codec Header
header_codec = struct (front_codec ⊗ (middle_codec ⊗ back_codec)) make_header header_parts

front_codec-IsLawful : IsLawful front_codec
front_codec-IsLawful =
    raw-IsLawful 8
    ⊠ (u32-IsLawful
        ⊠ (u32-IsLawful
            ⊠ (u64-IsLawful
                ⊠ (u64-IsLawful
                    ⊠ (u64-IsLawful ⊠ (u64-IsLawful ⊠ (u32-IsLawful ⊠ raw-IsLawful path_max)))))))

middle_codec-IsLawful : IsLawful middle_codec
middle_codec-IsLawful =
    u32-IsLawful
    ⊠ (array-IsLawful kernel_map_codec kernel_map_codec-IsLawful max_kernel_maps
        ⊠ raw-IsLawful regs_size)

back_codec-IsLawful : IsLawful back_codec
back_codec-IsLawful =
    u64-IsLawful ⊠ (u32-IsLawful ⊠ (u32-IsLawful ⊠ (u64-IsLawful ⊠ (u32-IsLawful ⊠ u32-IsLawful))))

pub header_codec-IsLawful : IsLawful header_codec
header_codec-IsLawful =
    struct-IsLawful _ make_header header_parts
      (front_codec-IsLawful ⊠ (middle_codec-IsLawful ⊠ back_codec-IsLawful)) (λ h. refl)

-- The static assertions on the sizes of the structures.
pub struct_sizes :
    (header_codec.size ≡ header_size) × (vma_codec.size ≡ vma_size) × (fd_codec.size ≡ fd_size)
struct_sizes = (refl, refl, refl)
