-- ===== src/Paper/Keeps/Calls.antt =====
-- paper/engine.py: any sequence of calls keeps what every statement keeps.
use trading_workstation.Prelude.{List, [], ◌∷◌, Double}
use trading_workstation.Paper.Monad.{Engine}
use trading_workstation.Paper.Outcome.{transaction_always}
use trading_workstation.Paper.Positions.{Setup}
use trading_workstation.Paper.Bars.{process_bar, close_at_end_of_data}
use trading_workstation.Paper.Keeps.Laws.{IsStable}
use trading_workstation.Paper.Store.{Store}
use trading_workstation.Paper.Books.Calls.{Call, bar, end_of_bars, signal, perform, perform_all}
use trading_workstation.Paper.Keeps.Bars.{process_bar-Keeps, close_at_end-Keeps}
use trading_workstation.Paper.Keeps.Submit.{submit_signal-keeps}

module _ {F : Type 0} ⦃d : Double F⦄ (P : Store F → Type 0) (law : IsStable P)
    (setup : Setup F) where
  perform-keeps : (c : Call F) (s : Engine F) → P s.store → P (perform setup c s).store
  unfolding perform
  perform-keeps (bar symbol b fresh allow) s k =
      unfold process_bar in
      transaction_always _ P s (process_bar-Keeps P law setup symbol b fresh allow s k) k
  perform-keeps (end_of_bars symbol b) s k =
      unfold close_at_end_of_data in
      transaction_always _ P s (close_at_end-Keeps P law setup symbol b s k) k
  perform-keeps (signal x version now) s k = submit_signal-keeps P law setup x version now s k

  -- What every statement keeps, any sequence of calls keeps.
  pub perform_all-keeps :
      (cs : List (Call F)) (s : Engine F) → P s.store → P (perform_all setup cs s).store
  unfolding perform_all
  perform_all-keeps [] s k = k
  perform_all-keeps (c ∷ cs) s k = perform_all-keeps cs (perform setup c s) (perform-keeps c s k)
