-- ===== src/Examples.antt =====
-- Concrete inputs: the theorems at inputs where their hypotheses hold, and runs of the code.
mod Fixtures
mod PaymentRuns
mod RefundRuns
mod SweepRuns
mod UsdtRuns
mod LimitRuns
mod WebhookRuns
mod MoneyRuns
mod QrRuns
mod ReportRuns
mod AccountRuns
