-- ===== src/Tests/Service.antt =====
-- The arguments `-s -x`, a round of the display thread, and a client of the kind 'R' that sends one
-- screen and a part of the next.
use g15daemon.Prelude.{
  ℕ, zero, suc, ◌≡◌, refl, Option, none, some, List, [], ◌∷◌, ◌++◌, arith, false, true, Returns,
  leb, ◌≤◌,
}
use g15daemon.Gfx.{Buf}
use g15daemon.Daemon.{Node}
use g15daemon.Text.{codes}
use g15daemon.Transfer.{SendTurn, RecvTurn, accepts}
use g15daemon.Start.{run, mr, unset, read_arguments}
use g15daemon.Start.Arguments.{key_of, read_arguments-last}
use g15daemon.Session.{Client, lcd_client_thread}
use g15daemon.Session.Pictures.{AllFair}
use g15daemon.Session.Life.{IsFair, Left, lcd_client_thread-Left}
use g15daemon.Tests.Screens.{three, three-IsRing}
use g15daemon.Tests.Clients.{three-Returnable}

runs_with_mr :
    read_arguments ((codes "g15daemon" ∷ codes "-s" ∷ []) ++ (codes "-x" ∷ [])) unset 0 ≡ run mr 0
unfolding read_arguments
runs_with_mr = refl

read_arguments-last_example : mr ≡ key_of (codes "-x")
read_arguments-last_example =
    read_arguments-last (codes "g15daemon" ∷ codes "-s" ∷ []) (codes "-x") unset 0 runs_with_mr

abbrev buf_of : Option Node → Buf
buf_of none = λ i. 0
buf_of (some n) = n.lcd.buf

abbrev noon : List ℕ
noon = 49 ∷ 50 ∷ 58 ∷ 48 ∷ 48 ∷ []

unfoldable pub repeat : {A : Type 0} → ℕ → A → List A
repeat zero a = []
repeat (suc n) a = a ∷ repeat n a

leb_le : (a b : ℕ) → leb a b ≡ true → a ≤ b
leb_le a b h = ground arith

abbrev client : Client
client = record {
  greeting = repeat 16 (SendTurn.ready true false (accepts 1));
  choice = repeat 4 (RecvTurn.ready true false 1);
  rounds =
      some (repeat 1048 (RecvTurn.ready true false 1), 5)
      ∷ some (repeat 1048 (RecvTurn.ready true false 1), 6)
      ∷ [];
  wbmp_rounds = [];
  incoming = codes "RBUF" ++ repeat 1058 255;
  tmpbuf = λ i. 0;
}

client-IsFair : IsFair client
unfolding repeat AllFair
client-IsFair = record {
  greeted = omega arith;
  chosen = omega arith;
  no_key = refl;
  no_wbmp = omega arith;
  pixels = λ e. absurd (omega arith);
  render = λ e. record {
    fair = (leb_le 1048 _ refl, refl, (leb_le 1048 _ refl, refl, tt));
    enough = omega arith;
  };
}

lcd_client_thread-Left_example :
    Returns (λ e. Left 3 (3 ∷ 2 ∷ 1 ∷ []) e.daemon) (lcd_client_thread 8 3 client three)
lcd_client_thread-Left_example =
    lcd_client_thread-Left 3 (3 ∷ 2 ∷ 1 ∷ []) refl 8 client three client-IsFair three-IsRing
      (omega arith) three-Returnable
