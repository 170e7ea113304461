-- ===== src/Transaction/Names.antt =====
-- Statuses and package managers are read back from the names under which they are stored.
use pkgundo.Prelude.{lit, text_eq, ◌≡◌, refl}
use pkgundo.Transaction.{
  TransactionStatus, running, completed, failed, rolled_back, tracking, untracked, status_name,
  status_of_name, PackageManager, pacman, apt, dnf, rpm, dpkg, pip, script, unknown, manager_name,
  manager_of_name,
}

-- A status is read back from its name.
pub status_of_name-status_name : (s : TransactionStatus) → status_of_name (status_name s) ≡ s
unfolding status_of_name status_name text_eq lit
status_of_name-status_name running = refl
status_of_name-status_name completed = refl
status_of_name-status_name failed = refl
status_of_name-status_name rolled_back = refl
status_of_name-status_name tracking = refl
status_of_name-status_name untracked = refl

-- A package manager is read back from its name.
pub manager_of_name-manager_name : (p : PackageManager) → manager_of_name (manager_name p) ≡ p
unfolding manager_of_name manager_name text_eq lit
manager_of_name-manager_name pacman = refl
manager_of_name-manager_name apt = refl
manager_of_name-manager_name dnf = refl
manager_of_name-manager_name rpm = refl
manager_of_name-manager_name dpkg = refl
manager_of_name-manager_name pip = refl
manager_of_name-manager_name script = refl
manager_of_name-manager_name unknown = refl
