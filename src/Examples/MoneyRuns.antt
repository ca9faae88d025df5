-- ===== src/Examples/MoneyRuns.antt =====
-- 12.34 CNY.
use bianhao.Base.{◌≡◌, refl, ◌∷◌, [], arith}
use bianhao.Domain.{Currency, ok}
use bianhao.Money.{from_minor_units, to_minor_units}
use bianhao.Money.RoundTrip.{to_minor_units-from_minor_units}

printed : from_minor_units 1234 Currency.cny ≡ 49 ∷ 50 ∷ 46 ∷ 51 ∷ 52 ∷ []
unfolding from_minor_units
printed = refl

to_minor_units-from_minor_units_example :
    to_minor_units (from_minor_units 1234 Currency.cny) Currency.cny ≡ ok 1234
to_minor_units-from_minor_units_example =
    to_minor_units-from_minor_units 1234 Currency.cny (omega arith)
