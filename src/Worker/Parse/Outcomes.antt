-- ===== src/Worker/Parse/Outcomes.antt =====
-- internal/worker/parse/parse.go: the deliveries that a parse leaves alone.
use phenk.Prelude.{ℕ, ◌≡◌, ◌⊎◌, inl, inr, refl, []}
use phenk.Prelude.Result.{ok}
use phenk.Core.Identity.{Identity}
use phenk.Core.Message.{Delivery, DeliveryState, parsed, received, failed}
use phenk.Store.Tables.{Tx, in_tx}
use phenk.Store.Deliveries.{delivery_by_id}
use phenk.Store.Identities.{identity_by_id}
use phenk.Worker.Parse.{
  World, Environment, Parser, JobDraw, ParseError, permanent, statement, parse_for,
  parse_unless_parsed, parse_delivery,
}

statement-read :
    {A : Type 0} (e : ParseError) (m : Tx A) (a : A) (w : World)
    → m w.db ≡ ok (a, w.db)
    → statement e m w ≡ (ok a, w)
unfolding in_tx
statement-read e m a w h = rw h refl

module _ (env : Environment) (p : Parser) (draw : JobDraw) where
  parse_for-purged :
      (d : Delivery) (i : Identity) (w : World)
      → i.wrapped_data_key ≡ []
      → parse_for env p draw d i w ≡ (ok tt, w)
  parse_for-purged d i w h = rw h refl

  parse_unless_parsed-purged :
      (d : Delivery) (s : DeliveryState) (i : Identity) (w : World)
      → identity_by_id d.identity_id w.db ≡ ok (i, w.db)
      → i.wrapped_data_key ≡ []
      → parse_unless_parsed env p draw d s w ≡ (ok tt, w)
  parse_unless_parsed-purged d parsed i w e h = refl
  parse_unless_parsed-purged d received i w e h =
      rw (statement-read permanent (identity_by_id d.identity_id) i w e) (parse_for-purged d i w h)
  parse_unless_parsed-purged d failed i w e h =
      rw (statement-read permanent (identity_by_id d.identity_id) i w e) (parse_for-purged d i w h)

  -- A delivery that was parsed before, or whose identity has lost its key, is left alone: the job
  -- succeeds and changes neither a table nor a file.
  pub parse_delivery-leaves :
      (id : ℕ) (d : Delivery) (w : World)
      → delivery_by_id id w.db ≡ ok (d, w.db)
      → (d.state ≡ parsed)
        ⊎ ((i : Identity) × (identity_by_id d.identity_id w.db ≡ ok (i, w.db))
            × (i.wrapped_data_key ≡ []))
      → parse_delivery env p draw id w ≡ (ok tt, w)
  unfolding parse_delivery
  parse_delivery-leaves id d w e (inl h) =
      rw (statement-read permanent (delivery_by_id id) d w e, h) refl
  parse_delivery-leaves id d w e (inr (i, g, h)) =
      rw (statement-read permanent (delivery_by_id id) d w e)
        (parse_unless_parsed-purged d d.state i w g h)
