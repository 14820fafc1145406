-- ===== src/PowerButton/Debounce/Tests.antt =====
-- Examples: the default debouncer, with a threshold of three readings.
use embedded_services.Base.{◌≡◌, refl, true, false, some, none, [], ◌∷◌, ok}
use embedded_services.PowerButton.Debounce.{Reading, active_low, new, is_pressed, round, debounce}
use embedded_services.PowerButton.Debounce.Noise.{
  IsAnswer, debounce-IsAnswer, repeat, debounce-repeat,
}

abbrev low : Reading
low = ok false

abbrev high : Reading
high = ok true

-- A bounce is not answered to.
bounce : (debounce (low ∷ high ∷ low ∷ high ∷ []) (new 3 active_low)).result ≡ none
unfolding debounce round new is_pressed
bounce = refl

debounce-IsAnswer_example :
    IsAnswer
      (low ∷ high ∷ low ∷ low ∷ low ∷ [])
      (new 3 active_low)
      true
      (debounce (low ∷ high ∷ low ∷ low ∷ low ∷ []) (new 3 active_low))
unfolding debounce round new is_pressed
debounce-IsAnswer_example =
    debounce-IsAnswer (low ∷ high ∷ low ∷ low ∷ low ∷ []) (new 3 active_low) true refl

debounce-repeat_example :
    ((debounce (repeat 3 low) (new 3 active_low)).result ≡ some true)
    × ((debounce (repeat 3 low) (new 3 active_low)).rounds ≡ 3)
unfolding new is_pressed
debounce-repeat_example = debounce-repeat 2 low (new 3 active_low) refl refl refl
