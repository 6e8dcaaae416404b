-- ===== src/Dispatch/Respond/Tests.antt =====
-- A route without a response model, and a plain value.
use hyperfastapi.Prelude.{◌≡◌, refl, false, none, some}
use hyperfastapi.Value.{int}
use hyperfastapi.Prelude.Int.{pos}
use hyperfastapi.Dispatch.Fast.{answered, status_of}
use hyperfastapi.Dispatch.Respond.{respond}
use hyperfastapi.Dispatch.Respond.Laws.{answered-respond}
use hyperfastapi.Samples.{formats, runtime, rendering, get_item_route}

answered-respond_example :
    answered formats runtime (status_of get_item_route) false (some (int (pos 7)))
    ≡ respond formats runtime rendering get_item_route none false (int (pos 7))
answered-respond_example =
    answered-respond formats runtime rendering get_item_route false (int (pos 7)) refl refl
