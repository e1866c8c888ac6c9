-- ===== src/Core/Dealer/Examples.antt =====
-- Handlers and subscribers at the paths of the dealer.
use librespot.Base.{◌≡◌, ◌⊎◌, refl, Bool, true, List, [], ◌∷◌, ◌++◌, some, if◌then◌else◌}
use librespot.Base.Text.{Text, codes}
use librespot.Base.Result.{ok, err}
use librespot.Core.Dealer.{HandlerMap, already_handled, default, insert, remove}
use librespot.Core.Dealer.Handlers.{IsInserted, insert_lem, IsPruned-default, remove-insert}
use librespot.Core.Dealer.Subscribers.{empty, subscribe, retain}
use librespot.Core.Dealer.Subscribers.Delivery.{retain-shadowed, retain-subscribe}

abbrev volume : List Text
volume = codes "connect" ∷ codes "volume" ∷ []

abbrev cluster : List Text
cluster = codes "connect" ∷ codes "cluster" ∷ []

abbrev one_handler : HandlerMap Text
one_handler = (insert volume (codes "v") default).1

insert_example :
    IsInserted cluster (codes "c") one_handler (insert cluster (codes "c") one_handler)
    ⊎ (insert cluster (codes "c") one_handler ≡ (err already_handled, one_handler))
insert_example = insert_lem cluster (codes "c") one_handler

one_handler_inserted : insert volume (codes "v") default ≡ (ok tt, one_handler)
unfolding insert
one_handler_inserted = refl

remove-insert_example : remove volume one_handler ≡ (some (codes "v"), default)
remove-insert_example =
    remove-insert volume (codes "v") default one_handler (IsPruned-default Text volume)
      one_handler_inserted

abbrev keep_all : Text → Bool
keep_all subscriber = true

retain-shadowed_example :
    (retain keep_all (volume ++ codes "deep" ∷ []) (
      subscribe
        (volume ++ codes "deep" ∷ [])
        (codes "below")
        (subscribe volume (codes "v") empty))).2
    ≡ codes "v" ∷ []
retain-shadowed_example =
    retain-shadowed keep_all volume [] (codes "deep" ∷ []) (codes "v") (codes "below")
      (codes "deep")

retain-subscribe_example : retain keep_all (volume ++ []) (subscribe volume (codes "v") empty) ≡ (
  true,
  (if keep_all (codes "v") then subscribe volume (codes "v") empty else empty),
  codes "v" ∷ [],
)
retain-subscribe_example = retain-subscribe keep_all volume [] (codes "v")
