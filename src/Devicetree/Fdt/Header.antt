-- ===== src/Devicetree/Fdt/Header.antt =====
-- `parse_header` of kernel/devicetree/src/fdt.rs reads a header that has been printed.
use aarch.Base.{ℕ, ◌^◌, ◌<◌, ◌≡◌, refl, List, [], ◌++◌, length, ok, ◌>>=◌}
use aarch.Devicetree.Scanner.{Scanner, new, consume_be32}
use aarch.Devicetree.Scanner.Numbers.{be32_bytes}
use aarch.Devicetree.Fdt.{FdtHeader, parse_header}
use aarch.Devicetree.Fdt.Reads.{Before, consume_be32-Read}

abbrev pub header_bytes : FdtHeader → List ℕ
header_bytes h =
    be32_bytes h.magic
    ++ (be32_bytes h.totalsize
        ++ (be32_bytes h.off_dt_struct
            ++ (be32_bytes h.off_dt_strings
                ++ (be32_bytes h.off_mem_rsvmap
                    ++ (be32_bytes h.version
                        ++ (be32_bytes h.last_comp_version
                            ++ (be32_bytes h.boot_cpuid_phys
                                ++ (be32_bytes h.size_dt_strings
                                    ++ be32_bytes h.size_dt_struct))))))))

-- All numbers of the header have 32 bits.
pub record IsHeader (h : FdtHeader) : Type 0 where
  pub magic : h.magic < 2 ^ 32
  pub totalsize : h.totalsize < 2 ^ 32
  pub off_dt_struct : h.off_dt_struct < 2 ^ 32
  pub off_dt_strings : h.off_dt_strings < 2 ^ 32
  pub off_mem_rsvmap : h.off_mem_rsvmap < 2 ^ 32
  pub version : h.version < 2 ^ 32
  pub last_comp_version : h.last_comp_version < 2 ^ 32
  pub boot_cpuid_phys : h.boot_cpuid_phys < 2 ^ 32
  pub size_dt_strings : h.size_dt_strings < 2 ^ 32
  pub size_dt_struct : h.size_dt_struct < 2 ^ 32

pub parse_header-header_bytes :
    (h : FdtHeader) (rest : List ℕ)
    → IsHeader h
    → length (header_bytes h ++ rest) < 2 ^ 63
    → parse_header (header_bytes h ++ rest) ≡ ok h
unfolding parse_header
parse_header-header_bytes h rest good sized =
    let start : Before (new (header_bytes h ++ rest)) (header_bytes h ++ rest) = record {
      passed = [];
      stands = refl;
      sized = sized;
    } in
    let (s1, reads1, r1) =
      consume_be32-Read (new (header_bytes h ++ rest)) h.magic _ good.magic start in
    let (s2, reads2, r2) = consume_be32-Read s1 h.totalsize _ good.totalsize r1.before in
    let (s3, reads3, r3) = consume_be32-Read s2 h.off_dt_struct _ good.off_dt_struct r2.before in
    let (s4, reads4, r4) = consume_be32-Read s3 h.off_dt_strings _ good.off_dt_strings r3.before in
    let (s5, reads5, r5) = consume_be32-Read s4 h.off_mem_rsvmap _ good.off_mem_rsvmap r4.before in
    let (s6, reads6, r6) = consume_be32-Read s5 h.version _ good.version r5.before in
    let (s7, reads7, r7) =
      consume_be32-Read s6 h.last_comp_version _ good.last_comp_version r6.before in
    let (s8, reads8, r8) =
      consume_be32-Read s7 h.boot_cpuid_phys _ good.boot_cpuid_phys r7.before in
    let (s9, reads9, r9) =
      consume_be32-Read s8 h.size_dt_strings _ good.size_dt_strings r8.before in
    let (s10, reads10, r10) =
      consume_be32-Read s9 h.size_dt_struct rest good.size_dt_struct r9.before in
    all (new (header_bytes h ++ rest)) s1 s2 s3 s4 s5 s6 s7 s8 s9 s10 reads1 reads2 reads3 reads4
      reads5 reads6 reads7 reads8 reads9 reads10
  where
    all :
        (s s1 s2 s3 s4 s5 s6 s7 s8 s9 s10 : Scanner)
        → consume_be32 s ≡ ok (h.magic, s1)
        → consume_be32 s1 ≡ ok (h.totalsize, s2)
        → consume_be32 s2 ≡ ok (h.off_dt_struct, s3)
        → consume_be32 s3 ≡ ok (h.off_dt_strings, s4)
        → consume_be32 s4 ≡ ok (h.off_mem_rsvmap, s5)
        → consume_be32 s5 ≡ ok (h.version, s6)
        → consume_be32 s6 ≡ ok (h.last_comp_version, s7)
        → consume_be32 s7 ≡ ok (h.boot_cpuid_phys, s8)
        → consume_be32 s8 ≡ ok (h.size_dt_strings, s9)
        → consume_be32 s9 ≡ ok (h.size_dt_struct, s10)
        → (do
          (magic, s) ← consume_be32 s
          (totalsize, s) ← consume_be32 s
          (off_dt_struct, s) ← consume_be32 s
          (off_dt_strings, s) ← consume_be32 s
          (off_mem_rsvmap, s) ← consume_be32 s
          (version, s) ← consume_be32 s
          (last_comp_version, s) ← consume_be32 s
          (boot_cpuid_phys, s) ← consume_be32 s
          (size_dt_strings, s) ← consume_be32 s
          (size_dt_struct, s) ← consume_be32 s
          ok (record {
            magic = magic;
            totalsize = totalsize;
            off_dt_struct = off_dt_struct;
            off_dt_strings = off_dt_strings;
            off_mem_rsvmap = off_mem_rsvmap;
            version = version;
            last_comp_version = last_comp_version;
            boot_cpuid_phys = boot_cpuid_phys;
            size_dt_strings = size_dt_strings;
            size_dt_struct = size_dt_struct;
          }))
          ≡ ok h
    all s s1 s2 s3 s4 s5 s6 s7 s8 s9 s10 e1 e2 e3 e4 e5 e6 e7 e8 e9 e10 =
        rw (e1, e2, e3, e4, e5, e6, e7, e8, e9, e10) refl
