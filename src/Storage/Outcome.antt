-- ===== src/Storage/Outcome.antt =====
-- A handler that comes to a reply.
use rs_serve.Base.{◌≡◌, refl}
use rs_serve.Response.{Response}
use rs_serve.Storage.{Handled, handled, process_ends, hangs}

module _ {Fs : Type 0} where
  abbrev pub Replies : Handled Fs → Type 0
  Replies (handled fs' r) = Unit
  Replies process_ends = ⊥
  Replies hangs = ⊥
  Replies Handled.out_of_fuel = ⊥

  pub Replies-handled :
      (h : Handled Fs) → Replies h → (fs' : Fs) × (r' : Response) × (h ≡ handled fs' r')
  Replies-handled (handled fs' r') h = (fs', r', refl)
  Replies-handled process_ends h = absurd h
  Replies-handled hangs h = absurd h
  Replies-handled Handled.out_of_fuel h = absurd h
