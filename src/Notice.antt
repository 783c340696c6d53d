-- ===== src/Notice.antt =====
-- The system messages that the client shows, one constructor for each call of `addSystemMessage`
-- in web/src/composables, and the text that each stands for.
use chat_serve.Base.{ℕ, [], ◌∷◌, ◌++◌, Num}
use chat_serve.Text.{Text, lit}

pub data Notice : Type 0 where
  -- SYS frames, as they are and with the mark of an error
  plain server_error : Text → Notice
  -- useChat: the connection
  lost silent reconnected : Notice
  entered left came : Text → Notice
  -- useFileTransfer, each with the file's name
  read_failed downloaded : Text → Notice
  incomplete : Text → (received : ℕ) → (total : Num) → Notice
  transfer_failed : Text → (reason : Text) → Notice
  -- useWebRTC, the first two with the peer's name, the last with the exception's message
  connect_failed call_failed : Text → Notice
  no_media : Notice
  media_refused : Text → Notice

-- U+26A0 with the selector of its coloured form
abbrev warning : Text
warning = 0x26a0 ∷ 0xfe0f ∷ []

-- `percent got total` is `(got / total * 100).toFixed(1)`, which rounds floating-point numbers.
module _ (percent : ℕ → Num → Text) where
  unfoldable pub render : Notice → Text
  render (plain text) = text
  render (server_error text) = lit "❌ " ++ text
  render lost = lit "连接断开，正在重连..."
  render silent = lit "连接无响应，正在重连..."
  render reconnected = lit "重新连接成功"
  render (entered room) = lit "您已加入房间 " ++ room
  render (left nick) = nick ++ lit " 离开房间"
  render (came nick) = nick ++ lit " 加入房间"
  render (read_failed name) = lit "❌ 文件 \"" ++ (name ++ lit "\" 读取失败")
  render (downloaded name) = lit "📥 文件 \"" ++ (name ++ lit "\" 下载完成")
  render (incomplete name got total) =
      warning ++ (lit " 文件 \"" ++ (name ++ (lit "\" 不完整：仅收到 " ++ (percent got total ++ lit "%"))))
  render (transfer_failed name reason) =
      warning ++ (lit " 文件 \"" ++ (name ++ (lit "\" 传输失败：" ++ reason)))
  render (connect_failed name) = lit "❌ 与 " ++ (name ++ lit " 建立连接失败")
  render (call_failed name) = lit "❗ 与 " ++ (name ++ lit " 的视频连接异常")
  render no_media = lit "❌ 浏览器未开放媒体权限：请通过 HTTPS 或 localhost 访问"
  render (media_refused message) = lit "❌ 无法访问媒体设备: " ++ message
