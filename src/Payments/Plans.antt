-- ===== src/Payments/Plans.antt =====
-- services/plans.ts
use bianhao.Base.{
  true, ◌&&◌, String, Option, none, some, List, [], ◌∷◌, filter, str_eq, if◌then◌else◌,
}
use bianhao.Domain.{Plan}

-- PLANS
abbrev pub default_plans : List Plan
default_plans =
    record {
      id = "monthly";
      name = "Monthly";
      duration_days = 30;
      traffic_gb = 200;
      device_limit = 3;
      price_cny_fen = 1500;
      price_usdt_micro = 2_000_000;
      enabled = true;
    }
    ∷ record {
      id = "quarterly";
      name = "Quarterly";
      duration_days = 90;
      traffic_gb = 700;
      device_limit = 4;
      price_cny_fen = 3900;
      price_usdt_micro = 5_500_000;
      enabled = true;
    }
    ∷ record {
      id = "yearly";
      name = "Yearly";
      duration_days = 365;
      traffic_gb = 0;
      device_limit = 5;
      price_cny_fen = 12800;
      price_usdt_micro = 18_000_000;
      enabled = true;
    }
    ∷ []

unfoldable pub list_plans : List Plan → List Plan
list_plans plans = filter (λ p. p.enabled) plans

unfoldable pub get_plan : String → List Plan → Option Plan
get_plan id [] = none
get_plan id (p ∷ plans) = if str_eq p.id id && p.enabled then some p else get_plan id plans
