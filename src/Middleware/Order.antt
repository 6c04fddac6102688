-- ===== src/Middleware/Order.antt =====
-- The first middleware listed is the outermost.
use mathlib.Core.List.{reverse, reverse-cons}
use webhttp.Prelude.{List, [], ◌∷◌, ◌++◌, Option, none, some, ◌≡◌, refl, ◌∙◌, ap}
use webhttp.Http.{Handler, Middleware}
use webhttp.Middleware.{wrap_all, chain}

-- `A(B(C(h)))`, nil entries left out
abbrev pub nested : List (Option Middleware) → Handler → Handler
nested [] h = h
nested (none ∷ mw) h = nested mw h
nested (some m ∷ mw) h = m (nested mw h)

wrap_all-append :
    (h : Handler) (xs ys : List (Option Middleware))
    → wrap_all h (xs ++ ys) ≡ wrap_all (wrap_all h xs) ys
unfolding wrap_all
wrap_all-append h [] ys = refl
wrap_all-append h (none ∷ xs) ys = wrap_all-append h xs ys
wrap_all-append h (some m ∷ xs) ys = wrap_all-append (m h) xs ys

-- A chain is its middlewares nested, the first listed outermost and the nil ones skipped.
pub chain-eq-nested : (h : Handler) (mw : List (Option Middleware)) → chain h mw ≡ nested mw h
unfolding chain
chain-eq-nested h [] = refl
chain-eq-nested h (none ∷ mw) =
    ap (wrap_all h) (reverse-cons none mw)
    ∙ wrap_all-append h (reverse mw) (none ∷ [])
    ∙ chain-eq-nested h mw
chain-eq-nested h (some m ∷ mw) =
    ap (wrap_all h) (reverse-cons (some m) mw)
    ∙ wrap_all-append h (reverse mw) (some m ∷ [])
    ∙ ap m (chain-eq-nested h mw)
