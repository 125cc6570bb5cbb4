-- ===== src/Core/Tests.antt =====
-- Groups of nodes at concrete sizes.
use bafomet.Base.{◌<◌, ◌&&◌, not, ◌==◌, ok, ◌≡◌, refl, arith}
use bafomet.Core.Params
use bafomet.Core.Params.{SystemParams}
use bafomet.Core.View.{ViewInfo}
use bafomet.Core.Quorum.{members, quorum-overlap}

abbrev four : SystemParams
four = record { n = 4; f = 1 }

abbrev six : SystemParams
six = record { n = 6; f = 1 }

abbrev last_view : ViewInfo
last_view = record { seq = 3; params = four }

-- Of four nodes, all but node 0 and all but node 1 have two nodes in common.
quorum-overlap_example : 1 < members 4 (λ i. not (i == 0) && not (i == 1))
quorum-overlap_example =
    quorum-overlap four (λ i. not (i == 0)) (λ i. not (i == 1)) refl (ground arith) (ground arith)

create-six : Params.create 6 1 ≡ ok six
unfolding Params.create
create-six = refl
