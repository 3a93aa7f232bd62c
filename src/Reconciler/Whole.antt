-- ===== src/Reconciler/Whole.antt =====
-- Reconcile with the in-place operations of inplace_update.go.
use unicore.Api.{App}
use unicore.App.Platform.{Platform}
