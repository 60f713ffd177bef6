-- ===== src/Dealer/Capture/Limits.antt =====
-- The budget of the loop of backend/app/dealer_archive/service.py over the tickers.
use Prim.Native.String.{String}
use options_anomaly_scanner.Prelude.{Bool, not, List, any_by}
use options_anomaly_scanner.Dealer.Capture.{TickerResult, is_attempted}

-- Some ticker was left out.
abbrev pub is_cut_short : List TickerResult → Bool
is_cut_short rows = any_by (λ r. not (is_attempted r)) rows
