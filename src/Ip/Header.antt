-- ===== src/Ip/Header.antt =====
-- The headers that src/ip.c builds and accepts.
use sapphire_os.Prelude.{ℕ, ◌+◌, ◌^◌, ◌<◌, ◌≡◌, true, arith}
use sapphire_os.Ip.{
  Addr, IpHeader, version_length, header_bytes, htons, checksum, header_sum, verify_header,
}
use sapphire_os.Ip.Checksum.{AllBytes, words, checksum-words, checksum-zero}

pub record IsAddr (a : Addr) : Type 0 where
  pub ip3 : a.ip3 < 2 ^ 8
  pub ip2 : a.ip2 < 2 ^ 8
  pub ip1 : a.ip1 < 2 ^ 8
  pub ip0 : a.ip0 < 2 ^ 8

-- the fields fit their types
pub record IsHeader (h : IpHeader) : Type 0 where
  pub vhl : h.vhl < 2 ^ 8
  pub ds : h.ds < 2 ^ 8
  pub total_length : h.total_length < 2 ^ 16
  pub id : h.id < 2 ^ 16
  pub flags_offset : h.flags_offset < 2 ^ 16
  pub ttl : h.ttl < 2 ^ 8
  pub protocol : h.protocol < 2 ^ 8
  pub header_checksum : h.header_checksum < 2 ^ 16
  pub source_addr : IsAddr h.source_addr
  pub dest_addr : IsAddr h.dest_addr

header_bytes-AllBytes : (h : IpHeader) → IsHeader h → AllBytes (header_bytes h)
unfolding header_bytes
header_bytes-AllBytes h v =
    let s = v.source_addr in
    let d = v.dest_addr in
    (
      v.vhl,
      (
        v.ds,
        (
          omega arith,
          (
            omega (arith, v.total_length),
            (
              omega arith,
              (
                omega (arith, v.id),
                (
                  omega arith,
                  (
                    omega (arith, v.flags_offset),
                    (
                      v.ttl,
                      (
                        v.protocol,
                        (
                          omega arith,
                          (
                            omega (arith, v.header_checksum),
                            (
                              s.ip3,
                              (s.ip2, (s.ip1, (s.ip0, (d.ip3, (d.ip2, (d.ip1, (d.ip0, tt))))))),
                            ),
                          ),
                        ),
                      ),
                    ),
                  ),
                ),
              ),
            ),
          ),
        ),
      ),
    )

-- the header without its checksum
blank-IsHeader : (h : IpHeader) → IsHeader h → IsHeader (record h { header_checksum = 0 })
blank-IsHeader h v = record {
  vhl = v.vhl;
  ds = v.ds;
  total_length = v.total_length;
  id = v.id;
  flags_offset = v.flags_offset;
  ttl = v.ttl;
  protocol = v.protocol;
  header_checksum = omega arith;
  source_addr = v.source_addr;
  dest_addr = v.dest_addr;
}

pub header_sum-lt : (h : IpHeader) → IsHeader h → header_sum h < 2 ^ 16
unfolding header_sum
header_sum-lt h v = (checksum-words _ (header_bytes-AllBytes _ (blank-IsHeader h v))).1

pub htons-htons : (n : ℕ) → n < 2 ^ 16 → htons (htons n) ≡ n
htons-htons n l = omega arith

-- the checksum adds its own word to the sum
words-header_bytes :
    (h : IpHeader)
    → IsHeader h
    → words (header_bytes h)
      ≡ words (header_bytes (record h { header_checksum = 0 })) + htons h.header_checksum
unfolding header_bytes
words-header_bytes h v = omega (arith, v.header_checksum)

-- what an accepted header satisfies
accepted :
    (h : IpHeader)
    → verify_header h ≡ true
    → (h.vhl ≡ version_length) × (htons h.header_checksum ≡ header_sum h)
unfolding verify_header
accepted h e = ground arith

-- A header whose fields fit their types and that is accepted has, its checksum included, the
-- checksum 0: its words add up to all ones.
pub verify_header-checksum :
    (h : IpHeader) → IsHeader h → verify_header h ≡ true → checksum (header_bytes h) ≡ 0
unfolding header_bytes header_sum
verify_header-checksum h v e =
    let (version, sum) = accepted h e in
    let blank = header_bytes-AllBytes _ (blank-IsHeader h v) in
    let (whole, small) = checksum-words (header_bytes (record h { header_checksum = 0 })) blank in
    checksum-zero h.vhl h.ds _ (header_bytes-AllBytes h v) (omega arith)
      (omega (arith, words-header_bytes h v, sum, whole))
