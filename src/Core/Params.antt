-- ===== src/Core/Params.antt =====
-- `SystemParams` (bft/core/mod.rs).
use bafomet.Base.{ℕ, ◌+◌, ◌*◌, ltb, if◌then◌else◌, Result, ok, err, wrapped, core}

pub record SystemParams : Type 0 where
  pub n : ℕ
  pub f : ℕ

-- `SystemParams::new`. The products of a `usize` do not wrap for the sizes of a real group.
unfoldable pub create : ℕ → ℕ → Result SystemParams
create n f =
    if ltb n (3 * f + 1)
    then err (wrapped core "Invalid params: n < 3f + 1")
    else ok (record { n = n; f = f })

-- `(self.f << 1) + 1`
abbrev pub quorum : SystemParams → ℕ
quorum p = p.f * 2 + 1
