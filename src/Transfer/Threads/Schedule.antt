-- ===== src/Transfer/Threads/Schedule.antt =====
-- The buttons and the threads of WPD_MTP_dataDlg.cpp side by side: presses, the start and the end of
-- MyControllingFunction, OnClose, and all else that goes on between them, in any order.
pub mod Stuck
use shujugongxiang.Prelude.{
  ℕ, zero, suc, ◌+◌, ◌≤◌, ◌≡◌, refl, ap, sym, ◌∙◌, Bool, true, false, ◌&&◌, not, inl, inr,
  Bool-cases, if◌then◌else◌, arith,
}
use mathlib.Core.Bool.{false≢true}
use shujugongxiang.Text.Defs.{Text}
use shujugongxiang.Sync.World.{Env, M}
use shujugongxiang.Sync.Switch.{Radio}
use shujugongxiang.Log.{Listing}
use shujugongxiang.Cascade.{Tree}
use shujugongxiang.Backup.{on_close}
use shujugongxiang.Transfer.World.{DeviceEnv, Dialog}
use shujugongxiang.Transfer.File.{Config}
use shujugongxiang.Transfer.File.Flag.{Keeps}
use shujugongxiang.Transfer.Threads.{
  my_controlling_function, begin_clear_thread, begin_reback_thread, on_bn_clicked_bt_tophone,
  on_bn_clicked_button_zdtopc,
}
use shujugongxiang.Transfer.Threads.Exchange.{my_controlling_function_dialog}
use shujugongxiang.Transfer.Threads.Flag.{begin_clear_thread-Keeps, begin_reback_thread-Keeps}

-- The dialog, whether a handler has started a thread and not yet set `m_threadFlag`, how many
-- synchronisations run, and whether OnClose has ended the dialog.
pub record World : Type 0 where
  pub dialog : Dialog
  pub pending : Bool
  pub running : ℕ
  pub closed : Bool

-- A handler up to AfxBeginThread, with its result: the flag is set in a step of its own.
unfoldable pub pressed : Bool × Dialog → World → World
pressed (started, dialog) w = record {
  dialog = record dialog { thread_flag = w.dialog.thread_flag };
  pending = started;
  running = if started then w.running + 1 else w.running;
  closed = w.closed;
}

unfoldable pub flag_set : World → World
flag_set w = record w { dialog = record w.dialog { thread_flag = true }; pending = false }

module _ (env : Env) (dev : DeviceEnv) (config : Config) where
  -- The handlers run one after the other; a synchronisation that ends may have begun with any dialog,
  -- and of what it leaves only the flag is kept here; `other` is all that leaves the flag as it is. No
  -- button is pressed once OnClose has ended the dialog; a synchronisation may go on then.
  pub data Step : World → World → Type 0 where
    press_tophone :
        (w : World) (has_item : Bool)
        → w.pending ≡ false
        → w.closed ≡ false
        → Step w (pressed (on_bn_clicked_bt_tophone env dev config has_item w.dialog) w)
    press_zdtopc :
        (w : World) (has_item : Bool)
        → w.pending ≡ false
        → w.closed ≡ false
        → Step w (pressed (on_bn_clicked_button_zdtopc env dev config has_item w.dialog) w)
    set_flag : (w : World) → w.pending ≡ true → Step w (flag_set w)
    finish :
        (w : World) (n : ℕ) (work : Text → M Bool) (radio : Radio) (run after : Dialog)
        → w.running ≡ suc n
        → after.thread_flag ≡ (my_controlling_function env dev config work radio run).1.thread_flag
        → Step w (record w { dialog = after; running = n })
    close_dialog :
        (w : World) (limit : Text) (backups : Listing) (tree : Tree)
        → w.pending ≡ false
        → w.closed ≡ false
        → Step w (record w { dialog = (on_close limit backups w.dialog tree).1; closed = true })
    other :
        (w : World) (after : Dialog) → Keeps w.dialog after → Step w (record w { dialog = after })

  pub data Reach (w : World) : World → Type 0 where
    here : Reach w w
    next : {u v : World} → Reach w u → Step u v → Reach w v

  -- The threads for clearing and for taking it back are among what else goes on.
  clear-Step :
      (w : World) (work : Text → M Bool) (in_order : Bool)
      → Step w (record w { dialog = (begin_clear_thread env dev config work in_order w.dialog).1 })
  clear-Step w work in_order =
      other w _ (begin_clear_thread-Keeps env dev config work in_order w.dialog)

  reback-Step :
      (w : World) → Step w (record w { dialog = (begin_reback_thread env dev config w.dialog).1 })
  reback-Step w = other w _ (begin_reback_thread-Keeps env dev config w.dialog)

  -- Up to OnClose, a synchronisation that runs has the flag set, or the handler that started it is
  -- about to.
  pub record IsCounted (w : World) : Type 0 where
    pub one : w.running ≤ 1
    pub flagged :
        w.closed ≡ false → w.pending ≡ false → w.dialog.thread_flag ≡ false → w.running ≡ 0
    pub unset : w.pending ≡ true → w.dialog.thread_flag ≡ false

  -- A thread is started only with an item chosen and the flag not set.
  pub tophone_started :
      (has_item : Bool) (s : Dialog)
      → (on_bn_clicked_bt_tophone env dev config has_item s).0 ≡ (has_item && not s.thread_flag)
  unfolding on_bn_clicked_bt_tophone
  tophone_started false s = refl
  tophone_started true s = elim (Bool-cases s.thread_flag) [
    | inl busy ↦ rw busy refl
    | inr idle ↦ rw idle refl
  ]

  pub zdtopc_started :
      (has_item : Bool) (s : Dialog)
      → (on_bn_clicked_button_zdtopc env dev config has_item s).0 ≡ (has_item && not s.thread_flag)
  unfolding on_bn_clicked_button_zdtopc
  zdtopc_started false s = refl
  zdtopc_started true s = elim (Bool-cases s.thread_flag) [
    | inl busy ↦ rw busy refl
    | inr idle ↦ rw idle refl
  ]

  not_busy : (has_item flag : Bool) → (has_item && not flag) ≡ true → flag ≡ false
  not_busy true false h = refl
  not_busy true true h = absurd (false≢true h)
  not_busy false flag h = absurd (false≢true h)

  pressed-IsCounted :
      (w : World) (has_item started : Bool) (s : Dialog)
      → w.pending ≡ false
      → w.closed ≡ false
      → IsCounted w
      → started ≡ (has_item && not w.dialog.thread_flag)
      → IsCounted (pressed (started, s) w)
  unfolding pressed
  pressed-IsCounted w has_item false s free up inv e = record {
    one = inv.one;
    flagged = λ c p f. inv.flagged c free f;
    unset = λ p. absurd (false≢true p);
  }
  pressed-IsCounted w has_item true s free up inv e =
      let idle = not_busy has_item w.dialog.thread_flag (sym e) in
      record {
        one = omega (arith, inv.flagged up free idle);
        flagged = λ c p f. absurd (false≢true (sym p));
        unset = λ p. idle;
      }

  Step-IsCounted : {w v : World} → Step w v → IsCounted w → IsCounted v
  unfolding flag_set
  Step-IsCounted (press_tophone w has_item free up) inv =
      let (started, s) = on_bn_clicked_bt_tophone env dev config has_item w.dialog in
      pressed-IsCounted w has_item started s free up inv (tophone_started has_item w.dialog)
  Step-IsCounted (press_zdtopc w has_item free up) inv =
      let (started, s) = on_bn_clicked_button_zdtopc env dev config has_item w.dialog in
      pressed-IsCounted w has_item started s free up inv (zdtopc_started has_item w.dialog)
  Step-IsCounted (set_flag w p) inv = record {
    one = inv.one;
    flagged = λ c free f. absurd (false≢true (sym f));
    unset = λ p'. absurd (false≢true p');
  }
  Step-IsCounted (finish w n work radio run after some flag) inv =
      let cleared = (my_controlling_function_dialog env dev config work run radio).0 in
      record {
        one = omega (arith, inv.one);
        flagged = λ c p f. omega (arith, inv.one);
        unset = λ p. flag ∙ cleared;
      }
  Step-IsCounted (close_dialog w limit backups tree free up) inv = record {
    one = inv.one;
    flagged = λ c. absurd (false≢true (sym c));
    unset = λ p. absurd (false≢true (sym free ∙ p));
  }
  Step-IsCounted (other w after keeps) inv = record {
    one = inv.one;
    flagged = λ c p f. inv.flagged c p (sym keeps ∙ f);
    unset = λ p. keeps ∙ inv.unset p;
  }

  -- From an idle dialog, however the buttons are pressed, whatever goes on between, and whenever the
  -- dialog is closed, at most one synchronisation runs at a time; until it is closed, and while none is
  -- being started, it runs only with m_threadFlag set.
  pub Reach-IsCounted :
      (w v : World)
      → w.running ≡ 0
      → w.pending ≡ false
      → Reach w v
      → (v.running ≤ 1)
        × (v.closed ≡ false → v.pending ≡ false → v.dialog.thread_flag ≡ false → v.running ≡ 0)
  Reach-IsCounted w v idle free reach = let inv = counted reach in (inv.one, inv.flagged)
    where
      start : IsCounted w
      start = record {
        one = omega (arith, idle);
        flagged = λ c p f. idle;
        unset = λ p. absurd (false≢true (sym free ∙ p));
      }

      counted : {u : World} → Reach w u → IsCounted u
      counted here = start
      counted (next r st) = Step-IsCounted st (counted r)
