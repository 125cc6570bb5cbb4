-- ===== src/Core/View.antt =====
-- `ViewInfo` (bft/core/server/mod.rs).
use bafomet.Base.{ℕ, ◌%◌, ◌^◌, Result, ok, ◌>>=◌}
use bafomet.Ordering.SeqNo.{SeqNo, Orderable, next, as_usize}
use bafomet.Core.Params
use bafomet.Core.Params.{SystemParams}
use bafomet.Message.{NodeId}

pub record ViewInfo : Type 0 where
  pub seq : SeqNo
  pub params : SystemParams

instance abbrev pub view_info_orderable : Orderable ViewInfo
view_info_orderable = record { sequence_number = λ v. v.seq }

unfoldable pub create : SeqNo → ℕ → ℕ → Result ViewInfo
create seq n f = do params ← Params.create n f; ok (record { seq = seq; params = params })

abbrev pub peek : ViewInfo → SeqNo → ViewInfo
peek v seq = record v { seq = seq }

unfoldable pub next_view : ViewInfo → ViewInfo
next_view v = peek v (next v.seq)

-- `NodeId::from(usize)` keeps the low 32 bits.
unfoldable pub leader : ViewInfo → NodeId
leader v = as_usize v.seq % v.params.n % 2 ^ 32
