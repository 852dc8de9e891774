-- ===== src/LossWindow/Valid.antt =====
-- The words and the count of the loss window over its operations.
use nova_net.Prelude.{◌+◌, ◌≤◌, ◌≡◌, refl, Bool, length, length-set, u32, arith}
use nova_net.LossWindow.{LossWindow, loss_window_size, nn_loss_window_init, nn_loss_window_record}

pub record IsWindow (lw : LossWindow) : Type 0 where
  pub words : length lw.bits ≡ 4
  pub count_fits : lw.count ≤ loss_window_size

pub loss_window_init-IsWindow : IsWindow nn_loss_window_init
unfolding nn_loss_window_init
loss_window_init-IsWindow = record { words = refl; count_fits = omega arith }

pub loss_window_record-IsWindow :
    (lw : LossWindow) (lost : Bool) → IsWindow lw → IsWindow (nn_loss_window_record lw lost)
unfolding nn_loss_window_record
loss_window_record-IsWindow lw lost v = record {
  words = rw (length-set) v.words;
  count_fits = ground (arith, v.count_fits);
}

-- A sample moves the place of the next one by one.
pub loss_window_record-index :
    (lw : LossWindow) (lost : Bool) → (nn_loss_window_record lw lost).index ≡ u32 (lw.index + 1)
unfolding nn_loss_window_record
loss_window_record-index lw lost = refl
