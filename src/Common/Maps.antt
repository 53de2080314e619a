-- ===== src/Common/Maps.antt =====
-- Go maps as lists of pairs, in the order of insertion.
use mathlib.Core.Path.{◌≡◌, ap, sym, ◌∙◌}
use mathlib.Core.Logic.{◌≢◌}
use mathlib.Core.Bool.{Bool}
use mathlib.Core.Option.{Option, none, some}
use mathlib.Core.List.{List, [], ◌∷◌}
use native.Mathlib.Omega.{arith}
use elrond_eth_bridge.Common.Tests.{if◌then◌else◌}

module _ {K V : Type 0} (same : Discrete K) where
  -- `m[key]`, where there is one.
  unfoldable pub lookup : K → List (K × V) → Option V
  lookup key [] = none
  lookup key ((k, value) ∷ entries) =
      let rest = lookup key entries in elim (same k key) [ yes _ ↦ some value | no _ ↦ rest ]

  -- `m[key] = value`
  unfoldable pub put : K → V → List (K × V) → List (K × V)
  put key value [] = (key, value) ∷ []
  put key value ((k, v) ∷ entries) =
      let rest = put key value entries in
      elim (same k key) [ yes _ ↦ (k, value) ∷ entries | no _ ↦ (k, v) ∷ rest ]

  -- `for k, v := range entries { if keep(k) { m[k] = v } }`; Go fixes no order, and this one starts
  -- from the end.
  unfoldable pub put_each : (K → Bool) → List (K × V) → List (K × V) → List (K × V)
  put_each keep [] m = m
  put_each keep ((k, v) ∷ entries) m =
      let rest = put_each keep entries m in if keep k then put k v rest else rest

  pub lookup-put :
      (key : K) (value : V) (m : List (K × V)) → lookup key (put key value m) ≡ some value
  unfolding lookup put
  lookup-put key value [] = ground arith
  lookup-put key value ((k, v) ∷ m) = ground (arith, lookup-put key value m)

  pub lookup-put_other :
      (key other : K) (value : V) (m : List (K × V))
      → key ≢ other
      → lookup other (put key value m) ≡ lookup other m
  unfolding lookup put
  lookup-put_other key other value [] apart = ground (arith, apart)
  lookup-put_other key other value ((k, v) ∷ m) apart =
      ground (arith, apart, lookup-put_other key other value m apart)

  -- The first value where there is one, and else the second.
  abbrev pub or_else : Option V → Option V → Option V
  or_else (some v) o = some v
  or_else none o = o

  pub lookup-put_each :
      (keep : K → Bool) (key : K) (entries m : List (K × V))
      → lookup key (put_each keep entries m)
        ≡ (if keep key then or_else (lookup key entries) (lookup key m) else lookup key m)
  unfolding lookup put_each
  lookup-put_each keep key [] m = ground arith
  lookup-put_each keep key ((k, v) ∷ entries) m =
      let rest = put_each keep entries m in
      elim (same k key) [
        | yes e ↦
            let there : lookup key (put k v rest) ≡ some v =
              ap (λ (i : K). lookup i (put k v rest)) (sym e) ∙ lookup-put k v rest in
            ground (arith, e, ap keep e, there, lookup-put_each keep key entries m)
        | no n ↦
            ground (arith, n, lookup-put_other k key v rest n, lookup-put_each keep key entries m)
      ]
