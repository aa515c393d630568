-- ===== src/ThreadPool/Order.antt =====
-- Which tasks the workers of base/threadpool.c take, and when they stop.
use wee.Base.{ℕ, Bool, List}
use wee.ThreadPool.Nodes.{Queue}
use wee.ThreadPool.{Pool}
use wee.ThreadPool.Run.{Run}
use wee.ThreadPool.History.{Ordered}

module _ (queue : Queue) where
  open queue use {
    items, is_empty, head, remove, insert_tail, items-empty, is_empty_lem, head_lem,
    items-insert_tail, items-remove,
  }

  abbrev OrderedIn : List ℕ → List ℕ → List ℕ → Bool → Pool queue → Type 0
  OrderedIn sent taken cancelled released p =
      Ordered sent taken cancelled released p.stopped (items p.wq)
