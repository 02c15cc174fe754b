-- ===== src/Base/TextOrder.antt =====
-- Python's order on `str`, by code points.
use mathlib.Core.Path.{◌≡◌, refl}
use mathlib.Core.Logic.{◌≢◌}
use mathlib.Core.Bool.{Bool, true, false, ◌&&◌, ◌||◌}
use mathlib.Core.List.{[], ◌∷◌}
use native.Mathlib.Omega.{arith}
use governed_llm_gateway.Base.Tests.{ltb, ◌==◌}
use governed_llm_gateway.Base.Texts.{Text}

unfoldable pub text_lt : Text → Text → Bool
text_lt [] [] = false
text_lt [] (b ∷ bs) = true
text_lt (a ∷ as') [] = false
text_lt (a ∷ as') (b ∷ bs) = ltb a b || (a == b && text_lt as' bs)

pub text_lt_asym : (s t : Text) → text_lt s t ≡ true → text_lt t s ≡ false
unfolding text_lt
text_lt_asym [] [] h = refl
text_lt_asym [] (b ∷ bs) h = refl
text_lt_asym (a ∷ as') [] h = cc
text_lt_asym (a ∷ as') (b ∷ bs) h = ground (arith, text_lt_asym as' bs)

pub text_lt_not_trans :
    (r s t : Text) → text_lt r s ≡ false → text_lt s t ≡ false → text_lt r t ≡ false
unfolding text_lt
text_lt_not_trans [] [] t h k = k
text_lt_not_trans [] (b ∷ bs) t h k = cc
text_lt_not_trans (a ∷ as') [] [] h k = refl
text_lt_not_trans (a ∷ as') [] (c ∷ cs) h k = cc
text_lt_not_trans (a ∷ as') (b ∷ bs) [] h k = refl
text_lt_not_trans (a ∷ as') (b ∷ bs) (c ∷ cs) h k = ground (arith, text_lt_not_trans as' bs cs)

-- Two different texts are in order one way or the other.
pub text_lt_total : (s t : Text) → s ≢ t → (text_lt s t || text_lt t s) ≡ true
unfolding text_lt
text_lt_total [] [] h = absurd (h refl)
text_lt_total [] (b ∷ bs) h = refl
text_lt_total (a ∷ as') [] h = refl
text_lt_total (a ∷ as') (b ∷ bs) h = ground (arith, text_lt_total as' bs)
