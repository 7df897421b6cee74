-- ===== src/Cdc/Event/Takes.antt =====
-- What a handler of change events does with events one after the other.
use waltap.Prelude.{◌≡◌, refl, Option, none, List, [], ◌∷◌, ◌++◌, All}
use waltap.Cdc.Event.{ChangeEvent}

module _ {V H E : Type 0} (handler : H → ChangeEvent V → H × Option E) where
  -- The handler takes the events one after the other, without an error.
  pub data Takes : List (ChangeEvent V) → H → H → Type 0 where
    takes_none : {h : H} → Takes [] h h
    takes :
        {event : ChangeEvent V} {events : List (ChangeEvent V)} {h h' end : H}
        → handler h event ≡ (h', none)
        → Takes events h' end
        → Takes (event ∷ events) h end

  pub Takes-append :
      (first rest : List (ChangeEvent V)) {h h' end : H}
      → Takes first h h'
      → Takes rest h' end
      → Takes (first ++ rest) h end
  Takes-append _ rest takes_none t = t
  Takes-append _ rest (takes answer more) t = takes answer (Takes-append _ rest more t)

  pub Takes-inv :
      (event : ChangeEvent V) (events : List (ChangeEvent V)) {h end : H}
      → Takes (event ∷ events) h end
      → (h' : H) × (handler h event ≡ (h', none)) × Takes events h' end
  Takes-inv _ _ (takes answer more) = (_, answer, more)

  pub Takes-split :
      (first rest : List (ChangeEvent V)) {h end : H}
      → Takes (first ++ rest) h end
      → (h' : H) × Takes first h h' × Takes rest h' end
  Takes-split [] rest {h} t = (h, takes_none, t)
  Takes-split (event ∷ first) rest t =
      let (h1, answer, more) = Takes-inv event (first ++ rest) t in
      let (h2, front, back) = Takes-split first rest more in (h2, takes answer front, back)

  pub Takes-none : {h end : H} → Takes [] h end → h ≡ end
  Takes-none takes_none = refl

  -- What the handler establishes of each event it takes, and keeps on the later ones, holds of all.
  module _ (P : ChangeEvent V → H → Type 0)
      (gives : (event : ChangeEvent V) (h h' : H) → handler h event ≡ (h', none) → P event h')
      (keeps : (event later : ChangeEvent V) (h h' : H)
        → handler h later ≡ (h', none)
        → P event h
        → P event h') where
    Takes-keeps :
        (event : ChangeEvent V) (events : List (ChangeEvent V)) {h end : H}
        → Takes events h end
        → P event h
        → P event end
    Takes-keeps event _ takes_none p = p
    Takes-keeps event _ (takes {event = later} {h = h} {h' = h'} answer more) p =
        Takes-keeps event _ more (keeps event later h h' answer p)

    pub Takes-All :
        (events : List (ChangeEvent V)) {h end : H}
        → Takes events h end
        → All (λ event. P event end) events
    Takes-All _ takes_none = tt
    Takes-All _ (takes {event} {events} {h} {h'} answer more) =
        (Takes-keeps event events more (gives event h h' answer), Takes-All events more)
