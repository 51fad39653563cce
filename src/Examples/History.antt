-- ===== src/Examples/History.antt =====
-- The history of notifications.
use nodus_hitl_hub.Base.Int.{negsuc}
use nodus_hitl_hub.Examples.Notified.{logged_hub}
use nodus_hitl_hub.Notify.History.{history}
use nodus_hitl_hub.Notify.Paging.{HistoryPage, history-HistoryPage}

history-HistoryPage_example :
    HistoryPage "7" (negsuc 0) logged_hub (history "7" (negsuc 0) logged_hub)
history-HistoryPage_example = history-HistoryPage "7" (negsuc 0) logged_hub
